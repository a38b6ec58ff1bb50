-- ===== src/Cache/Local/Laws.antt =====
-- The bound, the eviction and the fill of the process-local cache (core/local_cache.py).
use lkm_service.Prelude.{
  ◌-◌, String, inr, is_some, Option, ◌∙◌, ◌==◌, List, some, ◌≤◌, ◌||◌, nat_key, leb, ◌++◌, text_key,
  ◌<◌, ◌≡◌, not, ltb, [], Option-cases, inl, length, arith, none, drop, suc, ◌∷◌, Bool-cases, ◌+◌,
  if◌then◌else◌, refl, ℕ, length-append, eqb_self,
}
use lkm_service.Prelude.Dict.{Dict, lookup, remove, lookup-remove}
use lkm_service.Cache.Local.{
  Cache, l1_set, put_last, l1_multi_get, evict, l1_delete, get_at, l1_set_if_unchanged,
}

module _ {V : Type 0} where
  -- No key stands twice.
  abbrev pub IsKeyed : Dict String (ℕ × V) → Type 0
  IsKeyed [] = Unit
  IsKeyed (e ∷ d) = (lookup e.0 d ≡ none) × IsKeyed d

  pub record IsBounded (c : Cache V) : Type 0 where
    pub small : length c.entries ≤ c.maxsize
    pub room : 1 ≤ c.maxsize
    pub keyed : IsKeyed c.entries

  length-remove : (k : String) (d : Dict String (ℕ × V)) → length (remove k d) ≤ length d
  unfolding remove
  length-remove k [] = omega arith
  length-remove k ((j, v) ∷ d) = ground (arith, length-remove k d)

  lookup-remove-none :
      (k j : String) (d : Dict String (ℕ × V)) → lookup j d ≡ none → lookup j (remove k d) ≡ none
  lookup-remove-none k j d h = rw (lookup-remove k j d) (ground (arith, h))

  remove-IsKeyed : (k : String) (d : Dict String (ℕ × V)) → IsKeyed d → IsKeyed (remove k d)
  unfolding remove
  remove-IsKeyed k [] h = tt
  remove-IsKeyed k ((j, v) ∷ d) h = elim (Bool-cases (j == k)) [
    | inl e ↦ rw e (remove-IsKeyed k d h.1)
    | inr e ↦ rw e (lookup-remove-none k j d h.0, remove-IsKeyed k d h.1)
  ]

  pub lookup-last :
      (k j : String) (item : ℕ × V) (d : Dict String (ℕ × V))
      → lookup j d ≡ none
      → lookup j (d ++ ((k, item) ∷ [])) ≡ (if k == j then some item else none)
  unfolding lookup
  lookup-last k j item [] h = refl
  lookup-last k j item ((i, v) ∷ d) h = ground (arith, lookup-last k j item d)

  last-IsKeyed :
      (k : String) (item : ℕ × V) (d : Dict String (ℕ × V))
      → lookup k d ≡ none
      → IsKeyed d
      → IsKeyed (d ++ ((k, item) ∷ []))
  unfolding lookup
  last-IsKeyed k item [] h u = (refl, tt)
  last-IsKeyed k item ((i, v) ∷ d) h u = elim (Bool-cases (i == k)) [
    | inl e ↦ cc (rw e at h)
    | inr e ↦ (
      lookup-last k i item d u.0 ∙ ground (arith, e, text_key.same_iff k i, text_key.same_iff i k),
      last-IsKeyed k item d (rw e at h) u.1,
    )
  ]

  pub put_last-IsKeyed :
      (k : String) (item : ℕ × V) (d : Dict String (ℕ × V))
      → IsKeyed d
      → IsKeyed (put_last k item d)
  put_last-IsKeyed k item d u =
      last-IsKeyed k item (remove k d) (lookup-remove k k d ∙ rw (eqb_self k))
        (remove-IsKeyed k d u)

  length-remove_found :
      (k : String) (item : ℕ × V) (d : Dict String (ℕ × V))
      → lookup k d ≡ some item
      → length (remove k d) < length d
  unfolding lookup remove
  length-remove_found k item [] h = cc h
  length-remove_found k item ((j, v) ∷ d) h =
      ground (arith, length-remove k d, length-remove_found k item d)

  pub length-put_last :
      (k : String) (item new : ℕ × V) (d : Dict String (ℕ × V))
      → lookup k d ≡ some item
      → length (put_last k new d) ≤ length d
  length-put_last k item new d h =
      omega (arith, length-append (remove k d) ((k, new) ∷ []), length-remove_found k item d h)

  pub get_at-IsBounded :
      (k : String) (now : ℕ) (c : Cache V) → IsBounded c → IsBounded (get_at k now c).1
  unfolding get_at
  get_at-IsBounded k now c b = elim (Option-cases (lookup k c.entries)) [
    | inl e ↦ rw (e, get_at) b
    | inr (item, e) ↦ elim (Bool-cases (leb item.0 now)) [
      | inl late ↦
          rw (e, get_at)
            (rw late (record {
              small = omega (arith, b.small, length-remove k c.entries);
              room = b.room;
              keyed = remove-IsKeyed k c.entries b.keyed;
            }))
      | inr live ↦
          rw (e, get_at)
            (rw live (record {
              small = omega (arith, b.small, length-put_last k item item c.entries e);
              room = b.room;
              keyed = put_last-IsKeyed k item c.entries b.keyed;
            }))
    ]
  ]

  pub multi_get-IsBounded :
      (keys : List String) (now : ℕ) (c : Cache V)
      → IsBounded c
      → IsBounded (l1_multi_get keys now c).1
  unfolding l1_multi_get
  multi_get-IsBounded [] now c b = b
  multi_get-IsBounded (k ∷ keys) now c b =
      multi_get-IsBounded keys now (get_at k now c).1 (get_at-IsBounded k now c b)

  pub delete-IsBounded : (k : String) (c : Cache V) → IsBounded c → IsBounded (l1_delete k c)
  unfolding l1_delete
  delete-IsBounded k c b = record {
    small = omega (arith, b.small, length-remove k c.entries);
    room = b.room;
    keyed = remove-IsKeyed k c.entries b.keyed;
  }

  -- The loop drops the oldest entries that are over the limit, and no others.
  pub evict-drop :
      (maxsize : ℕ) (d : Dict String (ℕ × V)) → evict maxsize d ≡ drop (length d - maxsize) d
  unfolding evict
  evict-drop maxsize [] = ground arith
  evict-drop maxsize (e ∷ d) = elim (Bool-cases (ltb maxsize (suc (length d)))) [
    | inl more ↦
        let one : suc (length d) - maxsize ≡ suc (length d - maxsize) = ground (arith, more) in
        rw (more, one) (evict-drop maxsize d)
    | inr fits ↦
        let zero_left : suc (length d) - maxsize ≡ 0 = ground (arith, fits) in rw (fits, zero_left)
  ]

  pub length-evict : (maxsize : ℕ) (d : Dict String (ℕ × V)) → length (evict maxsize d) ≤ maxsize
  unfolding evict
  length-evict maxsize [] = omega arith
  length-evict maxsize (e ∷ d) = ground (arith, length-evict maxsize d)

  evict-IsKeyed : (maxsize : ℕ) (d : Dict String (ℕ × V)) → IsKeyed d → IsKeyed (evict maxsize d)
  unfolding evict
  evict-IsKeyed maxsize [] u = u
  evict-IsKeyed maxsize (e ∷ d) u = elim (Bool-cases (ltb maxsize (length (e ∷ d)))) [
    | inl more ↦ rw more (evict-IsKeyed maxsize d u.1)
    | inr fits ↦ rw fits u
  ]

  pub set-IsBounded :
      (k : String) (value : Option V) (ttl now : ℕ) (c : Cache V)
      → IsBounded c
      → IsBounded (l1_set k value ttl now c)
  unfolding l1_set
  set-IsBounded k none ttl now c b = delete-IsBounded k c b
  set-IsBounded k (some v) ttl now c b = elim (Bool-cases (ttl == 0)) [
    | inl e ↦ rw e (delete-IsBounded k c b)
    | inr e ↦
        let d = put_last k (now + ttl, v) c.entries in
        rw e (record {
          small = length-evict c.maxsize d;
          room = b.room;
          keyed = evict-IsKeyed c.maxsize d (put_last-IsKeyed k (now + ttl, v) c.entries b.keyed);
        })
  ]

  pub fill-IsBounded :
      (k : String) (value : Option V) (ttl revision now later : ℕ) (c : Cache V)
      → IsBounded c
      → IsBounded (l1_set_if_unchanged k value ttl revision now later c).1
  unfolding l1_set_if_unchanged
  fill-IsBounded k value ttl revision now later c b =
      elim (Bool-cases (ttl == 0 || (not (is_some value) || not (revision == c.revision)))) [
        | inl e ↦ rw e b
        | inr e ↦
            let got = get_at-IsBounded k now c b in
            elim (Bool-cases (is_some (get_at k now c).0)) [
              | inl hit ↦ rw e (rw hit got)
              | inr miss ↦ rw e (rw miss (set-IsBounded k value ttl later (get_at k now c).1 got))
            ]
      ]
