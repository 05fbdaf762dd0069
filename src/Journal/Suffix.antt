-- ===== src/Journal/Suffix.antt =====
-- The journal from one of its pages on.
use kungfu_cpp.Base.{
  ℕ, zero, suc, ◌+◌, ◌≤◌, ◌≡◌, refl, ap, subst, List, [], ◌∷◌, ◌++◌, arith, length, length-append,
  leb, Bool-cases, inl, inr, All,
}
use kungfu_cpp.Journal.Frame.{Frame}
use kungfu_cpp.Journal.Page.{Disk}
use kungfu_cpp.Journal.Layout.{Closed, stream}
use kungfu_cpp.Journal.Seeking.{All-tail}

abbrev pub Pages : Type 0
Pages = List (List Frame × Frame)

-- Page `id` is one of the journal's: so many pages are before it, and the rest from it on.
abbrev pub Within : ℕ → Pages → ℕ → Type 0
Within first closed id =
    (before : Pages) × (after : Pages) × (before ++ after ≡ closed) × (id ≡ first + length before)

pub within :
    (first : ℕ) (closed : Pages) (id : ℕ)
    → first ≤ id
    → id ≤ first + length closed
    → Within first closed id
within first [] id l h = ([], [], refl, omega (arith, l, h))
within first (x ∷ rest) zero l h = ([], x ∷ rest, refl, omega (arith, l))
within first (x ∷ rest) (suc id) l h = elim (Bool-cases (leb first id)) [
  | inl t ↦
      let (b, a, e, i) = within first rest id (ground (arith, t)) (omega (arith, h)) in
      (x ∷ b, a, ap (λ l. x ∷ l) e, omega (arith, i))
  | inr f ↦ ([], x ∷ rest, refl, ground (arith, l, f))
]

pub Closed-drop :
    (size : ℕ) (disk : Disk) (id : ℕ) (before after : Pages)
    → Closed size disk id (before ++ after)
    → Closed size disk (id + length before) after
Closed-drop size disk id [] after c = subst (λ k. Closed size disk k after) (omega arith) c
Closed-drop size disk id (x ∷ before) after c =
    subst (λ k. Closed size disk k after) (omega arith)
      (Closed-drop size disk (id + 1) before after c.1)

pub stream-drop :
    (P : Frame → Type 0) (before after : Pages) (fs : List Frame)
    → All P (stream (before ++ after) fs)
    → All P (stream after fs)
stream-drop P [] after fs h = h
stream-drop P ((gs, mark) ∷ before) after fs h =
    stream-drop P before after fs (All-tail P gs (mark ∷ stream (before ++ after) fs) h).1

pub length-stream_drop :
    (before after : Pages) (fs : List Frame)
    → length before + length (stream after fs) ≤ length (stream (before ++ after) fs)
length-stream_drop [] after fs = omega arith
length-stream_drop ((gs, mark) ∷ before) after fs = omega (
  arith,
  length-append gs (mark ∷ stream (before ++ after) fs),
  length-stream_drop before after fs,
)

pub length-stream : (closed : Pages) (fs : List Frame) → length closed ≤ length (stream closed fs)
length-stream [] fs = omega arith
length-stream ((gs, mark) ∷ rest) fs =
    omega (arith, length-append gs (mark ∷ stream rest fs), length-stream rest fs)
