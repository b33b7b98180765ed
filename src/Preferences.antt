-- ===== src/Preferences.antt =====
-- The IPreferences interface of the library ungula-lib, which the program takes as a parameter: a
-- store of values under text keys, one namespace open at a time, over the store's state `P`.
pub mod Laws
pub mod Rewriting
use Prim.Native.String.{String}
use ungula_lib_net.Base.{ℕ, Bool, List}

-- `get_bytes` returns the bytes that were copied; the count that C++ returns is their number.
pub record Preferences (P : Type 0) : Type 0 where
  pub begin : String → P → P × Bool
  pub close : P → P
  pub get_u8 : String → ℕ → P → ℕ
  pub put_u8 : String → ℕ → P → P
  pub get_bytes : String → ℕ → P → List ℕ
  pub put_bytes : String → List ℕ → P → P × Bool
  pub has_key : String → P → Bool
  pub remove : String → P → P
