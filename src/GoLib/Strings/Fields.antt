-- ===== src/GoLib/Strings/Fields.antt =====
-- Laws of `strings.FieldsFunc` and `strings.Split`.
use mathlib.Core.List.{reverse, reverse_aux, reverse-reverse}
use gh_proxy.Base.{
  ℕ, Bool, true, false, List, [], ◌∷◌, ◌++◌, ◌≡◌, ◌≢◌, refl, arith, ◌==◌, Bytes, All,
  All-reverse_aux, All-append, Lacks, Bool-cases, inl, inr, ap, ap₂, sym, ◌∙◌, append-nil,
}
use gh_proxy.GoLib.Strings.{cut, split_parts, split, fields_loop, fields_func, join}

-- What a text satisfies before its cut, it satisfies there too.
pub All-cut : (P : ℕ → Type 0) (sep : ℕ) (s : Bytes) → All P s → All P (cut sep s).0
unfolding cut
All-cut P sep [] h = tt
All-cut P sep (c ∷ s) (p, h) = elim (Bool-cases (c == sep)) [
  | inl e ↦ rw e tt
  | inr e ↦ rw e (p, All-cut P sep s h)
]

pub All-cut_after : (P : ℕ → Type 0) (sep : ℕ) (s : Bytes) → All P s → All P (cut sep s).1
unfolding cut
All-cut_after P sep [] h = tt
All-cut_after P sep (c ∷ s) (p, h) = elim (Bool-cases (c == sep)) [
  | inl e ↦ rw e h
  | inr e ↦ rw e (All-cut_after P sep s h)
]

pub All-join :
    (P : ℕ → Type 0) (d : ℕ) (fs : List Bytes) → P d → All (All P) fs → All P (join (d ∷ []) fs)
unfolding join
All-join P d [] pd h = tt
All-join P d (f ∷ []) pd (h, _) = h
All-join P d (f ∷ (q ∷ ps)) pd (h, k) = All-append P f _ h (pd, All-join P d (q ∷ ps) pd k)

split_parts-Lacks :
    (sep : ℕ) (s : Bytes) → Lacks sep (split_parts sep s).0 × All (Lacks sep) (split_parts sep s).1
unfolding split_parts
split_parts-Lacks sep [] = (tt, tt)
split_parts-Lacks sep (c ∷ s) = elim (Bool-cases (c == sep)) [
  | inl e ↦ rw e (tt, split_parts-Lacks sep s)
  | inr e ↦ rw e ((ground arith, (split_parts-Lacks sep s).0), (split_parts-Lacks sep s).1)
]

-- No part of a split holds the separator.
pub split-Lacks : (sep : ℕ) (s : Bytes) → All (Lacks sep) (split sep s)
unfolding split
split-Lacks sep s = split_parts-Lacks sep s

split_parts_whole : (sep : ℕ) (s : Bytes) → Lacks sep s → split_parts sep s ≡ (s, [])
unfolding split_parts
split_parts_whole sep [] h = refl
split_parts_whole sep (c ∷ s) (ne, h) = ground (arith, split_parts_whole sep s h)

pub split_whole : (sep : ℕ) (s : Bytes) → Lacks sep s → split sep s ≡ s ∷ []
unfolding split
split_whole sep s h = rw (split_parts_whole sep s h)

reverse_aux_nonempty : (xs : Bytes) (y : ℕ) (ys : Bytes) → reverse_aux xs (y ∷ ys) ≢ []
reverse_aux_nonempty [] y ys e = cc
reverse_aux_nonempty (x ∷ xs) y ys e = reverse_aux_nonempty xs x (y ∷ ys) e

reverse_nonempty : (xs : Bytes) → xs ≢ [] → reverse xs ≢ []
reverse_nonempty [] ne = ne
reverse_nonempty (x ∷ xs) ne = reverse_aux_nonempty xs x []

module _ (sep : ℕ → Bool) (P : ℕ → Type 0) where
  -- A field's byte: no separator, and of the text.
  abbrev pub InField : ℕ → Type 0
  InField c = (sep c ≡ false) × P c

  abbrev pub IsField : Bytes → Type 0
  IsField f = (f ≢ []) × All InField f

  fields_loop-IsField :
      (s field : Bytes) → All P s → All InField field → All IsField (fields_loop sep s field)
  unfolding fields_loop
  fields_loop-IsField [] [] h k = tt
  fields_loop-IsField [] (f ∷ field) h k =
      ((reverse_aux_nonempty field f [], All-reverse_aux InField (f ∷ field) [] k tt), tt)
  fields_loop-IsField (c ∷ s) [] (p, h) k = elim (Bool-cases (sep c)) [
    | inl e ↦ rw e (fields_loop-IsField s [] h tt)
    | inr e ↦ rw e (fields_loop-IsField s (c ∷ []) h ((e, p), tt))
  ]
  fields_loop-IsField (c ∷ s) (f ∷ field) (p, h) k = elim (Bool-cases (sep c)) [
    | inl e ↦ rw e (
      (reverse_aux_nonempty field f [], All-reverse_aux InField (f ∷ field) [] k tt),
      fields_loop-IsField s [] h tt,
    )
    | inr e ↦ rw e (fields_loop-IsField s (c ∷ (f ∷ field)) h ((e, p), k))
  ]

  -- Every field is non-empty, holds no separator, and is of the text's bytes.
  pub fields_func-IsField : (s : Bytes) → All P s → All IsField (fields_func sep s)
  unfolding fields_func
  fields_func-IsField s h = fields_loop-IsField s [] h tt

  fields_run :
      (f s acc : Bytes)
      → All InField f
      → fields_loop sep (f ++ s) acc ≡ fields_loop sep s (reverse_aux f acc)
  unfolding fields_loop
  fields_run [] s acc h = refl
  fields_run (c ∷ f) s acc ((e, p), h) = rw e (fields_run f s (c ∷ acc) h)

  fields_end : (g : Bytes) → g ≢ [] → fields_loop sep [] g ≡ reverse g ∷ []
  unfolding fields_loop
  fields_end [] ne = absurd (ne refl)
  fields_end (c ∷ g) ne = refl

  fields_next :
      (d : ℕ) (s g : Bytes)
      → sep d ≡ true
      → g ≢ []
      → fields_loop sep (d ∷ s) g ≡ reverse g ∷ fields_loop sep s []
  unfolding fields_loop
  fields_next d s [] e ne = absurd (ne refl)
  fields_next d s (c ∷ g) e ne = rw e

  fields_join :
      (d : ℕ) (fs : List Bytes)
      → sep d ≡ true
      → All IsField fs
      → fields_loop sep (join (d ∷ []) fs) [] ≡ fs
  unfolding join
  fields_join d [] e h = unfold fields_loop in refl
  fields_join d (f ∷ []) e ((ne, h), _) =
      ap (λ x. fields_loop sep x []) (sym (append-nil f))
      ∙ fields_run f [] [] h
      ∙ fields_end (reverse f) (reverse_nonempty f ne)
      ∙ ap (λ x. x ∷ []) (reverse-reverse f)
  fields_join d (f ∷ (q ∷ ps)) e ((ne, h), k) =
      fields_run f _ [] h
      ∙ fields_next d (join (d ∷ []) (q ∷ ps)) (reverse f) e (reverse_nonempty f ne)
      ∙ ap₂ ◌∷◌ (reverse-reverse f) (fields_join d (q ∷ ps) e k)

  -- Fields that are joined by a separator are read back.
  pub fields_func-join :
      (d : ℕ) (fs : List Bytes)
      → sep d ≡ true
      → All IsField fs
      → fields_func sep (join (d ∷ []) fs) ≡ fs
  unfolding fields_func
  fields_func-join d fs e h = fields_join d fs e h
