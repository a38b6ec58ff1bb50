-- ===== src/Rbac/Members.antt =====
-- Membership under the list operations of core/rbac_roles.py.
use lkm_service.Rbac.{sorted, onto, insert_sorted, is_subset, add_all}
use lkm_service.Prelude.{
  contains, eqb_self, arith, [], nat_key, ◌==◌, ◌∙◌, List, text_key, Bool-cases, length, true, inr,
  ◌≡◌, ◌||◌, refl, ◌+◌, ◌++◌, keep, any-append, ◌&&◌, ◌∷◌, String, Bool, inl,
}

pub contains-onto :
    (x : String) (l acc : List String) → contains x (onto l acc) ≡ (contains x l || contains x acc)
contains-onto x [] acc = refl
contains-onto x (y ∷ l) acc = ground (arith, contains-onto x l (y ∷ acc))

pub length-onto : (l acc : List String) → length (onto l acc) ≡ length l + length acc
length-onto [] acc = omega arith
length-onto (y ∷ l) acc = omega (arith, length-onto l (y ∷ acc))

pub contains-append :
    (x : String) (l m : List String) → contains x (l ++ m) ≡ (contains x l || contains x m)
contains-append x l m = any-append (λ y. y == x) l m

contains-insert_sorted :
    (x y : String) (l : List String) → contains x (insert_sorted y l) ≡ (y == x || contains x l)
contains-insert_sorted x y [] = refl
contains-insert_sorted x y (z ∷ l) = ground (arith, contains-insert_sorted x y l)

pub contains-sorted : (x : String) (l : List String) → contains x (sorted l) ≡ contains x l
contains-sorted x [] = refl
contains-sorted x (y ∷ l) =
    contains-insert_sorted x y (sorted l) ∙ ground (arith, contains-sorted x l)

pub contains-keep :
    (p : String → Bool) (x : String) (l : List String)
    → contains x (keep p l) ≡ (contains x l && p x)
contains-keep p x [] = refl
contains-keep p x (y ∷ l) = elim (Bool-cases (y == x)) [
  | inl e ↦
      let same : y ≡ x = (text_key.same_iff y x).0 e in
      rw same (ground (arith, eqb_self x, contains-keep p x l))
  | inr e ↦ ground (arith, contains-keep p x l)
]

pub is_subset_member :
    (l m : List String) (x : String)
    → is_subset l m ≡ true
    → contains x l ≡ true
    → contains x m ≡ true
is_subset_member [] m x h k = cc k
is_subset_member (y ∷ l) m x h k = elim (Bool-cases (y == x)) [
  | inl e ↦ let same : y ≡ x = (text_key.same_iff y x).0 e in rw (← same) (ground (arith, h))
  | inr e ↦ is_subset_member l m x (ground (arith, h)) (ground (arith, k, e))
]

pub contains-add_all :
    (x : String) (l acc : List String)
    → contains x (add_all l acc) ≡ (contains x l || contains x acc)
contains-add_all x [] acc = refl
contains-add_all x (y ∷ l) acc = elim (Bool-cases (contains y acc)) [
  | inl e ↦ elim (Bool-cases (y == x)) [
    | inl s ↦
        let same : y ≡ x = (text_key.same_iff y x).0 s in
        rw e (ground (arith, contains-add_all x l acc, rw same at e))
    | inr s ↦ rw e (ground (arith, contains-add_all x l acc, s))
  ]
  | inr e ↦ rw e (ground (arith, contains-add_all x l (y ∷ acc)))
]
