-- ===== src/Client/Steps/Grants.antt =====
-- recv_tests_ids (include/libndt/libndt.hpp): the ids of the tests that the server grants.
use libndt.Client.{Client, Json}
use libndt.Client.Steps.{grant_tests}
use libndt.Io.{ok}
use libndt.Net.{Draw, Net}
use libndt.Prelude.{List, [], arith, if◌then◌else◌, refl, ℕ, ◌%◌, ◌++◌, ◌==◌, ◌^◌, ◌∷◌, ◌≡◌}
use libndt.Prelude.Bytes.{Bytes}
use libndt.Strtonum.{strtonum}
use libndt.Strtonum.Bounds.{strtonum-bounds}
use libndt.Sys.{Sys}
use mathlib.Core.List.{append-nil, append_assoc}

-- The words are these ids, each from 1 to 256.
pub data Ids : List Bytes → List ℕ → Type 0 where
  no_ids : Ids [] []
  then_id :
      {word : Bytes} {words : List Bytes} {id : ℕ} {ids : List ℕ}
      → strtonum word 1 256 ≡ ok id
      → Ids words ids
      → Ids (word ∷ words) (id ∷ ids)

-- What is kept of an id in a byte: of the ids that are accepted, 256 alone does not fit.
abbrev pub kept_id : ℕ → ℕ
kept_id id = if id == 256 then 0 else id

abbrev pub kept_ids : List ℕ → List ℕ
kept_ids [] = []
kept_ids (id ∷ ids) = kept_id id ∷ kept_ids ids

abbrev grant : {W : Type 0} → List ℕ → Client W → Client W
grant ids s = record s { granted_suite = s.granted_suite ++ ids }

kept_id-mod : (word : Bytes) (id : ℕ) → strtonum word 1 256 ≡ ok id → id % 2 ^ 8 ≡ kept_id id
kept_id-mod word id e = let (low, high) = strtonum-bounds word 1 256 id e in ground arith

module _ {W J : Type 0} (sys : Sys W) (net : Net (Client W)) (draw : Draw (Client W))
    (json : Json J) (fuel : ℕ) where
  -- Words that are ids from 1 to 256 are added to the granted tests, in their order, and nothing
  -- else of the client changes before the words behind them are read; the id 256 is granted as the
  -- test 0, every other id as itself.
  pub grant_tests-Ids :
      {words : List Bytes} {ids : List ℕ} (more : List Bytes) (s : Client W)
      → Ids words ids
      → grant_tests sys net draw json fuel (words ++ more) s
        ≡ grant_tests sys net draw json fuel more
            (record s { granted_suite = s.granted_suite ++ kept_ids ids })
  unfolding grant_tests
  grant_tests-Ids more s no_ids = rw append-nil refl
  grant_tests-Ids more s (then_id {word} {id} {ids} e rest) =
      rw (grant_tests, e, kept_id-mod word id e)
        (rw (append_assoc s.granted_suite (kept_id id ∷ []) (kept_ids ids)) at (
          grant_tests-Ids more (record s { granted_suite = s.granted_suite ++ kept_id id ∷ [] })
            rest))
