-- ===== src/Msg/Lines.antt =====
-- The loops over std::getline (include/libndt/libndt.hpp): the words of a line are got back.
use libndt.Msg.{getline_from, getlines}
use libndt.Prelude.{All, List, [], arith, false, refl, true, ℕ, ◌++◌, ◌==◌, ◌∷◌, ◌≡◌}
use libndt.Prelude.Bytes.{Bytes}
use mathlib.Core.List.{append-nil, append_assoc}

-- The words, each of them behind the delimiter that ends it.
abbrev pub ended : ℕ → List Bytes → Bytes
ended delim [] = []
ended delim (w ∷ ws) = (w ++ delim ∷ []) ++ ended delim ws

-- A word has no delimiter inside.
abbrev pub IsWord : ℕ → Bytes → Type 0
IsWord delim w = All (λ c. (c == delim) ≡ false) w

getline_from-word :
    (delim : ℕ) (cur w rest : Bytes)
    → IsWord delim w
    → getline_from delim cur (w ++ rest) ≡ getline_from delim (cur ++ w) rest
unfolding getline_from
getline_from-word delim cur [] rest h = rw append-nil refl
getline_from-word delim cur (c ∷ w) rest h =
    rw (h.0, getline_from-word delim (cur ++ c ∷ []) w rest h.1, append_assoc cur (c ∷ []) w) refl

getline_from-delim :
    (delim : ℕ) (cur rest : Bytes)
    → getline_from delim cur (delim ∷ rest) ≡ cur ∷ getline_from delim [] rest
unfolding getline_from
getline_from-delim delim cur rest =
    let same : (delim == delim) ≡ true = ground arith in rw same refl

getline_from-ended :
    (delim : ℕ) (ws : List Bytes) (rest : Bytes)
    → All (IsWord delim) ws
    → getline_from delim [] (ended delim ws ++ rest) ≡ ws ++ getline_from delim [] rest
getline_from-ended delim [] rest h = refl
getline_from-ended delim (w ∷ ws) rest h =
    rw
      (
        append_assoc (w ++ delim ∷ []) (ended delim ws) rest,
        append_assoc w (delim ∷ []) (ended delim ws ++ rest),
        getline_from-word delim [] w (delim ∷ (ended delim ws ++ rest)) h.0,
        getline_from-delim delim w (ended delim ws ++ rest),
        getline_from-ended delim ws rest h.1,
      )
      refl

-- Words without the delimiter inside that a delimiter separates are got back from the line, the
-- empty ones among them too; the last word is not empty.
getlines-words :
    (delim : ℕ) (ws : List Bytes) (c : ℕ) (last : Bytes)
    → All (IsWord delim) ws
    → IsWord delim (c ∷ last)
    → getlines delim (ended delim ws ++ c ∷ last) ≡ ws ++ (c ∷ last) ∷ []
unfolding getlines
getlines-words delim ws c last h l =
    let alone = rw append-nil at (getline_from-word delim [] (c ∷ last) [] l) in
    rw (getline_from-ended delim ws (c ∷ last) h, alone) (unfold getline_from in refl)
