-- ===== src/Platform.antt =====
-- What the program uses and does not implement: `f64`, the crate bit-vec, and `fnv1a_64` of the
-- crate hashkit. The laws of `BitVec` are what that crate documents.
pub mod Listed
use ziftsieve.Base.{ℕ, ◌+◌, ◌<◌, ◌≡◌, ◌≢◌, Bool, false, Option, some, List}

pub record Float64 : Type 1 where
  pub F : Type 0
  pub of_nat : ℕ → F
  pub to_nat : F → ℕ
  pub neg : F → F
  pub mul : F → F → F
  pub div : F → F → F
  pub ln : F → F
  pub square : F → F
  pub ceil : F → F
  pub round : F → F
  pub greater : F → F → Bool
  pub is_nan : F → Bool
  pub clamp : F → F → F → F
  -- 0.01, 0.0001 and 0.9999
  pub percent : F
  pub least_rate : F
  pub greatest_rate : F

pub record BitVec : Type 1 where
  pub Bits : Type 0
  pub from_elem : ℕ → Bool → Bits
  pub len : Bits → ℕ
  pub get : Bits → ℕ → Option Bool
  pub put : Bits → ℕ → Bool → Bits
  pub clear : Bits → Bits
  pub grow : Bits → ℕ → Bool → Bits
  pub len-from_elem : (n : ℕ) (b : Bool) → len (from_elem n b) ≡ n
  pub get-from_elem : (n : ℕ) (b : Bool) (i : ℕ) → i < n → get (from_elem n b) i ≡ some b
  pub len-put : (v : Bits) (i : ℕ) (b : Bool) → len (put v i b) ≡ len v
  pub get-put_self : (v : Bits) (i : ℕ) (b : Bool) → i < len v → get (put v i b) i ≡ some b
  pub get-put_ne : (v : Bits) (i j : ℕ) (b : Bool) → i ≢ j → get (put v i b) j ≡ get v j
  pub len-clear : (v : Bits) → len (clear v) ≡ len v
  pub get-clear : (v : Bits) (i : ℕ) → i < len v → get (clear v) i ≡ some false
  pub len-grow : (v : Bits) (n : ℕ) (b : Bool) → len (grow v n b) ≡ len v + n
  pub get-grow_old :
      (v : Bits) (n : ℕ) (b : Bool) (i : ℕ) → i < len v → get (grow v n b) i ≡ get v i

pub record Platform : Type 1 where
  pub floats : Float64
  pub bit_vec : BitVec
  pub fnv1a_64 : List ℕ → ℕ
