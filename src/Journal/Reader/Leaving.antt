-- ===== src/Journal/Reader/Leaving.antt =====
-- What is left of a reader when it leaves journals.
use mathlib.Core.Option.{some-injective, none-ne-some}
use kungfu_cpp.Base.{
  ℕ, ◌≡◌, ◌≢◌, refl, sym, ◌∙◌, subst, inl, inr, none, some, List, [], ◌∷◌, ◌==◌, if◌then◌else◌, All,
  arith, Bool-cases,
}
use kungfu_cpp.Journal.Reader.{
  Channel, Reader, sort, channel, location_of, channel_key, without_location, without_key, disjoin,
  disjoin_channel,
}
use kungfu_cpp.Journal.Reader.Sorting.{sort-Choice}
use kungfu_cpp.Journal.Reader.Available.{IsKeyed, All-get_elem?}

channel-without_location :
    (uid key : ℕ) (cs : List Channel)
    → channel key (without_location uid cs)
      ≡ (if location_of key == uid then none else channel key cs)
unfolding channel without_location
channel-without_location uid key [] = ground arith
channel-without_location uid key (c ∷ cs) = ground (arith, channel-without_location uid key cs)

without_location-All :
    (uid : ℕ) (cs : List Channel) → All (λ c. location_of c.key ≢ uid) (without_location uid cs)
unfolding without_location
without_location-All uid [] = tt
without_location-All uid (c ∷ cs) = elim (Bool-cases (location_of c.key == uid)) [
  | inl t ↦ rw t (without_location-All uid cs)
  | inr f ↦ rw f ((λ e. ground (arith, e, f)), without_location-All uid cs)
]

-- After `disjoin` the reader has lost every journal of the location and no other, and its current
-- journal, if it has one, is of another location.
pub channel-disjoin :
    (now uid key : ℕ) (r : Reader)
    → (channel key (disjoin now uid r).journals
        ≡ (if location_of key == uid then none else channel key r.journals))
      × ((disjoin now uid r).current ≡ some key → location_of key ≢ uid)
unfolding disjoin sort
channel-disjoin now uid key r =
    let s : Reader = record r { current = none; journals = without_location uid r.journals } in
    (
      channel-without_location uid key r.journals,
      (λ e. elim (sort-Choice now s) [
        | inl (n, h) ↦ absurd (none-ne-some key (sym n ∙ e))
        | inr c ↦
            subst (λ k. location_of k ≢ uid) (some-injective c.first.key key (sym c.current ∙ e))
              (All-get_elem? (λ d. location_of d.key ≢ uid) (without_location uid r.journals)
                c.position c.first (without_location-All uid r.journals) c.joined)
      ]),
    )

channel-away : (key : ℕ) (cs : List Channel) → All (λ d. d.key ≢ key) cs → channel key cs ≡ none
unfolding channel
channel-away key [] h = refl
channel-away key (c ∷ cs) h = ground (arith, h.0, channel-away key cs h.1)

channel-without_key :
    (key k : ℕ) (cs : List Channel)
    → IsKeyed cs
    → channel k (without_key key cs) ≡ (if key == k then none else channel k cs)
unfolding channel without_key
channel-without_key key k [] h = ground arith
channel-without_key key k (c ∷ cs) h =
    ground (arith, channel-without_key key k cs h.1, channel-away c.key cs h.0)

-- After `disjoin_channel` the reader has lost the journal of the location and destination and no
-- other, the keys of the journals being distinct.
pub channel-disjoin_channel :
    (now uid dest_id k : ℕ) (r : Reader)
    → IsKeyed r.journals
    → channel k (disjoin_channel now uid dest_id r).journals
      ≡ (if channel_key uid dest_id == k then none else channel k r.journals)
unfolding disjoin_channel sort
channel-disjoin_channel now uid dest_id k r h =
    channel-without_key (channel_key uid dest_id) k r.journals h
