-- ===== src/Preferences/Laws.antt =====
-- What the program relies on of a preferences store whose writes succeed.
use Prim.Native.String.{String}
use text.Mathlib.Text.{◌==◌ as str_eq}
use ungula_lib_net.Base.{
  ℕ, ◌≤◌, ◌≡◌, Bool, true, false, ◌&&◌, List, [], Option, none, some, length, if◌then◌else◌,
}
use ungula_lib_net.Preferences.{Preferences}

pub data Value : Type 0 where
  byte : ℕ → Value
  blob : List ℕ → Value

abbrev pub u8_or : ℕ → Option Value → ℕ
u8_or d (some (byte n)) = n
u8_or d (some (blob b)) = d
u8_or d none = d

abbrev pub is_some {ℓ} : {A : Type ℓ} → Option A → Bool
is_some none = false
is_some (some a) = true

-- A write goes to its key in the open namespace alone; a read finds what was written last.
pub record IsPreferences {P : Type 0} (pf : Preferences P) : Type 0 where
  pub opened : P → String
  pub value : String → String → P → Option Value
  pub begins : (n : String) (p : P) → (pf.begin n p).1 ≡ true
  pub opened-begin : (n : String) (p : P) → opened (pf.begin n p).0 ≡ n
  pub value-begin : (n k m : String) (p : P) → value n k (pf.begin m p).0 ≡ value n k p
  pub value-close : (n k : String) (p : P) → value n k (pf.close p) ≡ value n k p
  pub opened-put_u8 : (j : String) (v : ℕ) (p : P) → opened (pf.put_u8 j v p) ≡ opened p
  pub value-put_u8 :
      (n k j : String) (v : ℕ) (p : P)
      → value n k (pf.put_u8 j v p)
        ≡ (if str_eq n (opened p) && str_eq k j then some (byte v) else value n k p)
  pub opened-put_bytes :
      (j : String) (b : List ℕ) (p : P) → opened (pf.put_bytes j b p).0 ≡ opened p
  pub value-put_bytes :
      (n k j : String) (b : List ℕ) (p : P)
      → value n k (pf.put_bytes j b p).0
        ≡ (if str_eq n (opened p) && str_eq k j then some (blob b) else value n k p)
  pub opened-remove : (j : String) (p : P) → opened (pf.remove j p) ≡ opened p
  pub value-remove :
      (n k j : String) (p : P)
      → value n k (pf.remove j p)
        ≡ (if str_eq n (opened p) && str_eq k j then none else value n k p)
  pub get_u8_lem : (k : String) (d : ℕ) (p : P) → pf.get_u8 k d p ≡ u8_or d (value (opened p) k p)
  pub get_bytes-some :
      (k : String) (len : ℕ) (b : List ℕ) (p : P)
      → value (opened p) k p ≡ some (blob b)
      → length b ≤ len
      → pf.get_bytes k len p ≡ b
  pub get_bytes-none :
      (k : String) (len : ℕ) (p : P) → value (opened p) k p ≡ none → pf.get_bytes k len p ≡ []
  pub has_key_lem : (k : String) (p : P) → pf.has_key k p ≡ is_some (value (opened p) k p)
