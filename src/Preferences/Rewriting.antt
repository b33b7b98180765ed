-- ===== src/Preferences/Rewriting.antt =====
-- The laws of a preferences store as a rule set: a read after a row of writes in one session.
use Prim.Native.String.{String}
use text.Mathlib.Text.{◌==◌ as str_eq}
use text.Mathlib.TextPositions.{eq_refl}
use ungula_lib_net.Base.{ℕ, ◌≤◌, ◌≡◌, length, [], ◌&&◌, List, none, some, if◌then◌else◌}
use ungula_lib_net.Preferences.{Preferences}
use ungula_lib_net.Preferences.Laws.{IsPreferences, byte, blob, u8_or, is_some}

module _ {P : Type 0} {pf : Preferences P} (l : IsPreferences pf) where
  pub opened-begin : (n : String) (p : P) → l.opened (pf.begin n p).0 ≡ n
  opened-begin n p = l.opened-begin n p

  pub value-begin : (n k m : String) (p : P) → l.value n k (pf.begin m p).0 ≡ l.value n k p
  value-begin n k m p = l.value-begin n k m p

  pub value-close : (n k : String) (p : P) → l.value n k (pf.close p) ≡ l.value n k p
  value-close n k p = l.value-close n k p

  pub opened-put_u8 : (j : String) (v : ℕ) (p : P) → l.opened (pf.put_u8 j v p) ≡ l.opened p
  opened-put_u8 j v p = l.opened-put_u8 j v p

  pub value-put_u8 :
      (n k j : String) (v : ℕ) (p : P)
      → l.value n k (pf.put_u8 j v p)
        ≡ (if str_eq n (l.opened p) && str_eq k j then some (byte v) else l.value n k p)
  value-put_u8 n k j v p = l.value-put_u8 n k j v p

  pub opened-put_bytes :
      (j : String) (b : List ℕ) (p : P) → l.opened (pf.put_bytes j b p).0 ≡ l.opened p
  opened-put_bytes j b p = l.opened-put_bytes j b p

  pub value-put_bytes :
      (n k j : String) (b : List ℕ) (p : P)
      → l.value n k (pf.put_bytes j b p).0
        ≡ (if str_eq n (l.opened p) && str_eq k j then some (blob b) else l.value n k p)
  value-put_bytes n k j b p = l.value-put_bytes n k j b p

  pub opened-remove : (j : String) (p : P) → l.opened (pf.remove j p) ≡ l.opened p
  opened-remove j p = l.opened-remove j p

  pub value-remove :
      (n k j : String) (p : P)
      → l.value n k (pf.remove j p)
        ≡ (if str_eq n (l.opened p) && str_eq k j then none else l.value n k p)
  value-remove n k j p = l.value-remove n k j p

  pub get_u8_lem :
      (k : String) (d : ℕ) (p : P) → pf.get_u8 k d p ≡ u8_or d (l.value (l.opened p) k p)
  get_u8_lem k d p = l.get_u8_lem k d p

  pub has_key_lem : (k : String) (p : P) → pf.has_key k p ≡ is_some (l.value (l.opened p) k p)
  has_key_lem k p = l.has_key_lem k p

  -- What the first read of a session finds.
  pub read_byte :
      (n k : String) (d v : ℕ) (p : P)
      → l.value n k p ≡ some (byte v)
      → pf.get_u8 k d (pf.begin n p).0 ≡ v
  read_byte n k d v p h = simp (l.get_u8_lem, l.opened-begin, l.value-begin, h)

  pub read_no_byte :
      (n k : String) (d : ℕ) (p : P) → l.value n k p ≡ none → pf.get_u8 k d (pf.begin n p).0 ≡ d
  read_no_byte n k d p h = simp (l.get_u8_lem, l.opened-begin, l.value-begin, h)

  pub read_blob :
      (n k : String) (len : ℕ) (b : List ℕ) (p : P)
      → l.value n k p ≡ some (blob b)
      → length b ≤ len
      → pf.get_bytes k len (pf.begin n p).0 ≡ b
  read_blob n k len b p h fits =
      l.get_bytes-some k len b (pf.begin n p).0 (simp (l.opened-begin, l.value-begin, h)) fits

  pub read_no_blob :
      (n k : String) (len : ℕ) (p : P)
      → l.value n k p ≡ none
      → pf.get_bytes k len (pf.begin n p).0 ≡ []
  read_no_blob n k len p h =
      l.get_bytes-none k len (pf.begin n p).0 (simp (l.opened-begin, l.value-begin, h))

pub ruleset store_laws = (
  opened-begin, value-begin, value-close, opened-put_u8, value-put_u8, opened-put_bytes,
  value-put_bytes, opened-remove, value-remove, eq_refl,
)
