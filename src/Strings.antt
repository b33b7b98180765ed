-- ===== src/Strings.antt =====
-- C strings as src/http and src/wifi compare them, without the final zero: the bytes of an array up
-- to the first zero, strncmp with the length of a prefix, and strstr.
pub mod Laws
use ungula_lib_net.Base.{ℕ, zero, suc, Bool, true, false, ◌&&◌, ◌||◌, List, [], ◌∷◌, ◌==◌}

abbrev pub c_string : List ℕ → List ℕ
c_string [] = []
c_string (zero ∷ bytes) = []
c_string (suc b ∷ bytes) = suc b ∷ c_string bytes

-- `strncmp(text, prefix, strlen(prefix)) == 0`.
unfoldable pub has_prefix : List ℕ → List ℕ → Bool
has_prefix text [] = true
has_prefix [] (p ∷ ps) = false
has_prefix (c ∷ cs) (p ∷ ps) = c == p && has_prefix cs ps

-- `strstr(text, needle) != nullptr`.
unfoldable pub has_substring : List ℕ → List ℕ → Bool
unfolding has_prefix
has_substring [] needle = has_prefix [] needle
has_substring (c ∷ cs) needle = has_prefix (c ∷ cs) needle || has_substring cs needle
