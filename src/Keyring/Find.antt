-- ===== src/Keyring/Find.antt =====
-- The search through the cache.
use pg_tde.Base.{
  ◌≤◌, ◌<◌, ◌≡◌, ◌≢◌, refl, ◌∙◌, sym, inl, inr, none, some, List, [], ◌∷◌, ◌++◌, arith,
  if◌then◌else◌, length, list_eqb, list_eqb-eq, list_eqb_self, list_eqb-ne, Bool-cases,
}
use pg_tde.Keyring.{KeyName, KeyData, KeyInfo, find_key}

-- What is found has the name that was looked for.
pub find_key-name :
    (name : KeyName) (ks : List KeyInfo) (k : KeyInfo) → find_key name ks ≡ some k → k.name ≡ name
unfolding find_key
find_key-name name [] k h = cc
find_key-name name (x ∷ ks) k h = ground (arith, list_eqb-eq x.name name, find_key-name name ks k)

-- A key that is added at the end is found unless its name was there before, and other names are not
-- affected.
pub find_key-append_self :
    (name : KeyName) (d : KeyData) (ks : List KeyInfo)
    → find_key name ks ≡ none
    → find_key name (ks ++ (record { name = name; key_data = d } ∷ []))
      ≡ some (record { name = name; key_data = d })
unfolding find_key
find_key-append_self name d [] h = ground (arith, list_eqb_self name)
find_key-append_self name d (x ∷ ks) h = ground (arith, find_key-append_self name d ks)

pub find_key-append_some :
    (name : KeyName) (y : KeyInfo) (ks : List KeyInfo) (k : KeyInfo)
    → find_key name ks ≡ some k
    → find_key name (ks ++ (y ∷ [])) ≡ some k
unfolding find_key
find_key-append_some name y [] k h = cc
find_key-append_some name y (x ∷ ks) k h = ground (arith, find_key-append_some name y ks k)

pub find_key-append_ne :
    (name : KeyName) (y : KeyInfo) (ks : List KeyInfo)
    → y.name ≢ name
    → find_key name (ks ++ (y ∷ [])) ≡ find_key name ks
unfolding find_key
find_key-append_ne name y [] ne = ground (arith, list_eqb-ne y.name name)
find_key-append_ne name y (x ∷ ks) ne = ground (arith, find_key-append_ne name y ks)

-- The keys of other names.
abbrev pub remove : KeyName → List KeyInfo → List KeyInfo
remove name [] = []
remove name (k ∷ ks) = if list_eqb k.name name then remove name ks else k ∷ remove name ks

length-remove-le : (name : KeyName) (ks : List KeyInfo) → length (remove name ks) ≤ length ks
length-remove-le name [] = omega arith
length-remove-le name (k ∷ ks) = ground (arith, length-remove-le name ks)

pub length-remove-lt :
    (name : KeyName) (ks : List KeyInfo) (k : KeyInfo)
    → find_key name ks ≡ some k
    → length (remove name ks) < length ks
unfolding find_key
length-remove-lt name [] k h = cc
length-remove-lt name (x ∷ ks) k h =
    ground (arith, length-remove-le name ks, length-remove-lt name ks k)

pub find_key-remove :
    (name other : KeyName) (ks : List KeyInfo)
    → name ≢ other
    → find_key other (remove name ks) ≡ find_key other ks
unfolding find_key
find_key-remove name other [] ne = refl
find_key-remove name other (x ∷ ks) ne = elim (Bool-cases (list_eqb x.name name)) [
  | inl e ↦
      let e' = list_eqb-eq x.name name e in
      let miss = list_eqb-ne x.name other (λ q. ne (sym e' ∙ q)) in
      rw (e, miss) (find_key-remove name other ks ne)
  | inr e ↦ rw e (ground (arith, find_key-remove name other ks ne))
]
