-- ===== src/Broker/Client/Told.antt =====
-- What a client knows of the subscriptions that it was told, call by call.
use Prim.Native.String.{String}
use kungfu_cpp.Base.{
  ℕ, ◌≡◌, refl, sym, ap, ◌∙◌, inl, inr, Bool, true, false, not, ◌&&◌, ◌||◌, Option, none, some,
  List, [], ◌∷◌, ◌++◌, if◌then◌else◌, ◌==◌, arith, Bool-cases,
}
use kungfu_cpp.Base.Chains.{◌>>=◌}
use kungfu_cpp.Base.Dict.{lookup, erase, lookup-erase, lookup-assign}
use kungfu_cpp.Broker.Client.{InstrumentKey, CustomSubscribe, passive, Client, Output}
use kungfu_cpp.Broker.Client.Queries.{is_some}
use kungfu_cpp.Broker.Client.Calls.{emplace, Result}
use kungfu_cpp.Broker.Client.Events.{
  subs_or_new, subscribe_all, Call, subscribes_key, subscribes, unsubscribes, subscribes_at,
  unsubscribes_at, subscribes_all,
}
use kungfu_cpp.Broker.Client.Renewing.{enrolled}

-- What holds of the client after a call that returns.
abbrev pub After : (Client → Type 0) → Result → Type 0
After P none = Unit
After P (some r) = P r.1

module _ (P : Client → Type 0) where
  pub After-bind :
      {A : Type 0} (o : Option A) (f : A → Result) → ((a : A) → After P (f a)) → After P (o >>= f)
  After-bind none f h = tt
  After-bind (some a) f h = h a

  pub After-if : (b : Bool) (x y : Result) → After P x → After P y → After P (if b then x else y)
  After-if true x y h k = h
  After-if false x y h k = k

-- A step after a step, each with its own conclusion.
pub After-then :
    (P Q : Client → Type 0) (o : Result) (f : List Output × Client → Result)
    → After P o
    → ((r : List Output × Client) → P r.1 → After Q (f r))
    → After Q (o >>= f)
After-then P Q none f h g = tt
After-then P Q (some r) f h g = g r h

-- The custom subscriptions of a location, by the calls.
abbrev pub customs_by : ℕ → Call → List CustomSubscribe → List CustomSubscribe
customs_by source (subscribes_all l s) ss = if l.uid == source then ss ++ s ∷ [] else ss
customs_by source _ ss = ss

-- Whether a key is subscribed, by the calls.
abbrev pub wanted_by : (String → String → ℕ) → ℕ → Call → Bool → Bool
wanted_by hash key (subscribes_key k) b = k.key == key || b
wanted_by hash key (subscribes e i) b = hash e i == key || b
wanted_by hash key (subscribes_at l e i) b = hash e i == key || b
wanted_by hash key (unsubscribes e i) b = not (hash e i == key) && b
wanted_by hash key (unsubscribes_at l e i) b = not (hash e i == key) && b
wanted_by hash key _ b = b

abbrev pub nonempty : List CustomSubscribe → Bool
nonempty [] = false
nonempty (s ∷ ss) = true

-- A passive client that has these custom subscriptions of a location, and this key or not.
pub record Told (source key : ℕ) (ss : List CustomSubscribe) (b : Bool) (c : Client) : Type 0 where
  pub is_passive : c.kind ≡ passive
  pub customs : subs_or_new (lookup source c.custom_subs) ≡ ss
  pub enrolls : enrolled (lookup source c.enrolled_md) ≡ nonempty ss
  pub has_key : is_some (lookup key c.instrument_keys) ≡ b

is_some-emplace :
    {V : Type 0} (k j : ℕ) (v : V) (m : List (ℕ × V))
    → is_some (lookup j (emplace k v m)) ≡ (k == j || is_some (lookup j m))
unfolding emplace lookup
is_some-emplace k j v m = ground arith

pub enrolled-emplace :
    (k j : ℕ) (m : List (ℕ × Bool))
    → enrolled (lookup j (emplace k false m)) ≡ enrolled (lookup j m)
unfolding emplace lookup
enrolled-emplace k j m = ground arith

nonempty-append : (ss : List CustomSubscribe) (s : CustomSubscribe) → nonempty (ss ++ s ∷ []) ≡ true
nonempty-append [] s = refl
nonempty-append (t ∷ ss) s = refl

module _ (source key : ℕ) (ss : List CustomSubscribe) (b : Bool) where
  -- A call that changes none of the three maps.
  pub kept :
      (c c' : Client)
      → Told source key ss b c
      → c'.kind ≡ c.kind
      → c'.custom_subs ≡ c.custom_subs
      → c'.enrolled_md ≡ c.enrolled_md
      → c'.instrument_keys ≡ c.instrument_keys
      → Told source key ss b c'
  kept c c' h k e f g = record {
    is_passive = k ∙ h.is_passive;
    customs = ap (λ m. subs_or_new (lookup source m)) e ∙ h.customs;
    enrolls = ap (λ m. enrolled (lookup source m)) f ∙ h.enrolls;
    has_key = ap (λ m. is_some (lookup key m)) g ∙ h.has_key;
  }

  pub key_added :
      (k : InstrumentKey) (c : Client)
      → Told source key ss b c
      → Told source key ss
          (k.key == key || b)
          (record c { instrument_keys = emplace k.key k c.instrument_keys })
  key_added k c h = record {
    is_passive = h.is_passive;
    customs = h.customs;
    enrolls = h.enrolls;
    has_key = is_some-emplace k.key key k c.instrument_keys ∙ ap (λ x. k.key == key || x) h.has_key;
  }

  pub key_dropped :
      (k : ℕ) (c : Client)
      → Told source key ss b c
      → Told source key ss
          (not (k == key) && b)
          (record c { instrument_keys = erase k c.instrument_keys })
  key_dropped k c h = record {
    is_passive = h.is_passive;
    customs = h.customs;
    enrolls = h.enrolls;
    has_key = ground (arith, lookup-erase k key c.instrument_keys, h.has_key);
  }

  pub with_custom :
      (u : ℕ) (s : CustomSubscribe) (c : Client)
      → Told source key ss b c
      → Told source key (if u == source then ss ++ s ∷ [] else ss) b (subscribe_all u s c)
  unfolding subscribe_all
  with_custom u s c h =
      let v = subs_or_new (lookup u c.custom_subs) ++ s ∷ [] in
      let q = lookup-assign u source v c.custom_subs in
      let p = lookup-assign u source true c.enrolled_md in
      elim (Bool-cases (u == source)) [
        | inl t ↦
            let e : u ≡ source = ground (arith, t) in
            rw t (record {
              is_passive = h.is_passive;
              customs =
                  ap subs_or_new (q ∙ ap (λ x. if x then some v else lookup source c.custom_subs) t)
                  ∙ (ap (λ w. subs_or_new (lookup w c.custom_subs) ++ s ∷ []) e
                      ∙ ap (λ w. w ++ s ∷ []) h.customs);
              enrolls =
                  ap enrolled (p ∙ ap (λ x. if x then some true else lookup source c.enrolled_md) t)
                  ∙ sym (nonempty-append ss s);
              has_key = h.has_key;
            })
        | inr f ↦ rw f (record {
          is_passive = h.is_passive;
          customs =
              ap subs_or_new (q ∙ ap (λ x. if x then some v else lookup source c.custom_subs) f)
              ∙ h.customs;
          enrolls =
              ap enrolled (p ∙ ap (λ x. if x then some true else lookup source c.enrolled_md) f)
              ∙ h.enrolls;
          has_key = h.has_key;
        })
      ]
