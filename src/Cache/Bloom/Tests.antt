-- ===== src/Cache/Bloom/Tests.antt =====
-- The filter at concrete inputs: a digest by the length of a key, ten bits, two rounds.
use lkm_service.Cache.Bloom.Held.{add_many-definitely_absent}
use lkm_service.Prelude.{ℕ, ◌≡◌, refl, true, false, some, [], ◌∷◌, String, nat_key, text_key}
use Prim.Native.String.{len}
use lkm_service.Cache.Bloom.Seeding.{done}
use lkm_service.Cache.Bloom.{
  Filter, succeeds, definitely_absent_many, add, add_many, definitely_absent, rounds_from,
  add_chunks, absent_from, chunks_of,
}

abbrev by_length : String → ℕ × ℕ
by_length s = (len s, 4)

abbrev no_keys : Filter
no_keys = record { bits = []; seeded_until = some 50 }

abbrev one_key : Filter
one_key = record no_keys { bits = 3 ∷ 8 ∷ [] }

add_run : add by_length 10 2 succeeds "abc" no_keys ≡ (true, one_key)
unfolding add rounds_from
add_run = refl

absent_run :
    definitely_absent_many by_length 10 2 succeeds 9 ("abc" ∷ "ab" ∷ []) one_key ≡ "ab" ∷ []
unfolding definitely_absent_many absent_from rounds_from
absent_run = refl

seed_run : add_many by_length 10 2 true (succeeds ∷ []) ("abc" ∷ []) no_keys ≡ (1, one_key)
unfolding add_many add_chunks chunks_of rounds_from
seed_run = refl

add_many-definitely_absent_example :
    definitely_absent by_length 10 2 succeeds 9 "abc" one_key ≡ false
add_many-definitely_absent_example =
    add_many-definitely_absent by_length 10 2 true (succeeds ∷ []) succeeds 9 ("abc" ∷ []) "abc"
      no_keys one_key one_key seed_run refl (done one_key)
