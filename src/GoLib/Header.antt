-- ===== src/GoLib/Header.antt =====
-- `net/http.Header`: values under canonical names, one entry to a name.
use gh_proxy.Base.{
  List, [], ◌∷◌, ◌≡◌, ◌≢◌, refl, sym, ◌∙◌, if◌then◌else◌, Bytes, same, same_iff, same_refl, true,
  false, Bool-cases, inl, inr,
}

abbrev pub Header : Type 0
Header = List (Bytes × List Bytes)

-- The first value, or the empty text.
abbrev pub first_value : List Bytes → Bytes
first_value [] = []
first_value (v ∷ vs) = v

-- `Header.Get` of a canonical name
unfoldable pub get : Header → Bytes → Bytes
unfolding same
get [] name = []
get ((n, vs) ∷ h) name = let rest = get h name in if same n name then first_value vs else rest

-- `Header.Del` of a canonical name
unfoldable pub del : Header → Bytes → Header
unfolding same
del [] name = []
del ((n, vs) ∷ h) name = let rest = del h name in if same n name then rest else (n, vs) ∷ rest

-- `Header.Set` of a canonical name
unfoldable pub set : Header → Bytes → Bytes → Header
unfolding del
set h name value = (name, value ∷ []) ∷ del h name

-- A name that was deleted has no value.
pub get-del_self : (h : Header) (name : Bytes) → get (del h name) name ≡ []
unfolding get del
get-del_self [] name = refl
get-del_self ((n, vs) ∷ h) name = elim (Bool-cases (same n name)) [
  | inl e ↦ rw e (get-del_self h name)
  | inr e ↦ rw e (rw e (get-del_self h name))
]

pub get-set_self : (h : Header) (name value : Bytes) → get (set h name value) name ≡ value
unfolding get set
get-set_self h name value = rw ((same_iff name name).1 refl)

-- Another name keeps its value.
pub get-del_ne :
    (h : Header) (name other : Bytes) → name ≢ other → get (del h name) other ≡ get h other
unfolding get del
get-del_ne [] name other ne = refl
get-del_ne ((n, vs) ∷ h) name other ne = elim (Bool-cases (same n name)) [
  | inl e ↦ elim (Bool-cases (same n other)) [
    | inl f ↦ absurd (ne (sym ((same_iff n name).0 e) ∙ (same_iff n other).0 f))
    | inr f ↦ rw (e, f) (get-del_ne h name other ne)
  ]
  | inr e ↦ elim (Bool-cases (same n other)) [
    | inl f ↦ rw (e, f) refl
    | inr f ↦ rw (e, f) (get-del_ne h name other ne)
  ]
]

pub get-set_ne :
    (h : Header) (name value other : Bytes)
    → name ≢ other
    → get (set h name value) other ≡ get h other
unfolding get set
get-set_ne h name value other ne = elim (Bool-cases (same name other)) [
  | inl e ↦ absurd (ne ((same_iff name other).0 e))
  | inr e ↦ rw e (get-del_ne h name other ne)
]

-- All values of a canonical name: an index into the map
unfoldable pub values : Header → Bytes → List Bytes
unfolding same
values [] name = []
values ((n, vs) ∷ h) name = let rest = values h name in if same n name then vs else rest

pub get_lem : (h : Header) (name : Bytes) → get h name ≡ first_value (values h name)
unfolding get values
get_lem [] name = refl
get_lem ((n, vs) ∷ h) name = elim (Bool-cases (same n name)) [
  | inl e ↦ rw e refl
  | inr e ↦ rw e (get_lem h name)
]

-- A deleted name has no values, and any other keeps its own.
pub values-del :
    (h : Header) (n name : Bytes)
    → values (del h n) name ≡ (if same n name then [] else values h name)
unfolding values del
values-del [] n name = elim (Bool-cases (same n name)) [ inl e ↦ rw e refl | inr e ↦ rw e refl ]
values-del ((m, vs) ∷ h) n name = elim (Bool-cases (same m n)) [
  | inl e ↦
      let m_is_n : m ≡ n = (same_iff m n).0 e in
      elim (Bool-cases (same n name)) [
        | inl f ↦ rw (e, f) (rw f at (values-del h n name))
        | inr f ↦ rw (e, f) (rw (m_is_n, f) (rw f at (values-del h n name)))
      ]
  | inr e ↦ elim (Bool-cases (same m name)) [
    | inl f ↦ elim (Bool-cases (same n name)) [
      | inl g ↦ absurd (ne_lem e f g)
      | inr g ↦ rw (e, g) (rw f refl)
    ]
    | inr f ↦ rw (e, f) (values-del h n name)
  ]
]
  where
    ne_lem : same m n ≡ false → same m name ≡ true → same n name ≡ true → ⊥
    ne_lem e f g =
        let k : same m n ≡ true =
          (same_iff m n).1 ((same_iff m name).0 f ∙ sym ((same_iff n name).0 g)) in
        cc

pub values-set :
    (h : Header) (n value name : Bytes)
    → values (set h n value) name ≡ (if same n name then value ∷ [] else values h name)
unfolding values set
values-set h n value name = elim (Bool-cases (same n name)) [
  | inl e ↦ rw e refl
  | inr e ↦ rw e (rw e at (values-del h n name))
]

pub values-del_self : (h : Header) (name : Bytes) → values (del h name) name ≡ []
unfolding values del
values-del_self h name = values-del h name name ∙ rw (same_refl name) refl
