-- ===== src/Websocket/Mask.antt =====
-- crates/wxcd-codex/src/lib.rs: a mask over the bytes of a frame, taken twice, gives them back. The
-- exclusive or of two bytes is compared at all of them.
use Prim.Native.Nat.{bit_xor}
use codex_webex_connector.Base.{
  ℕ, zero, suc, ◌<◌, Bool, true, ◌&&◌, List, [], ◌∷◌, ◌≡◌, refl, ap, ◌∙◌, arith, eqb, All,
  Bool-cases, inl, inr,
}
use codex_webex_connector.Websocket.Raw.{unmask}

abbrev below : ℕ → (ℕ → Bool) → Bool
below zero p = true
below (suc n) p = let rest = below n p in rest && p n

below-at : (n i : ℕ) (p : ℕ → Bool) → below n p ≡ true → i < n → p i ≡ true
below-at zero i p h l = ground arith
below-at (suc n) i p h l = elim (Bool-cases (eqb i n)) [
  | inl e ↦
      let same : i ≡ n = ground arith in let last : p n ≡ true = ground arith in ap p same ∙ last
  | inr e ↦ below-at n i p (ground arith) (ground arith)
]

all_bytes : below 256 (λ k. below 256 (λ b. eqb (bit_xor (bit_xor b k) k) b)) ≡ true
all_bytes = refl

eqb_sound : (m n : ℕ) → eqb m n ≡ true → m ≡ n
eqb_sound m n h = ground arith

xor_twice : (b k : ℕ) → b < 256 → k < 256 → bit_xor (bit_xor b k) k ≡ b
xor_twice b k h l =
    let same : eqb (bit_xor (bit_xor b k) k) b ≡ true =
      below-at 256 b (λ c. eqb (bit_xor (bit_xor c k) k) c)
        (below-at 256 k (λ j. below 256 (λ c. eqb (bit_xor (bit_xor c j) j) c)) all_bytes l) h in
    eqb_sound (bit_xor (bit_xor b k) k) b same

both : {a b : ℕ} {xs ys : List ℕ} → a ≡ b → xs ≡ ys → a ∷ xs ≡ b ∷ ys
both {a} {b} {xs} {ys} e f = cc

abbrev pub IsByte : ℕ → Type 0
IsByte b = b < 256

pub unmask-unmask :
    (key all bytes : List ℕ)
    → All IsByte key
    → All IsByte all
    → All IsByte bytes
    → unmask key all (unmask key all bytes) ≡ bytes
unfolding unmask
unmask-unmask key all [] h g l = refl
unmask-unmask [] [] (b ∷ bytes) h g l = refl
unmask-unmask [] (k ∷ ks) (b ∷ bytes) h g l =
    both (xor_twice b k l.0 g.0) (unmask-unmask ks (k ∷ ks) bytes g.1 g l.1)
unmask-unmask (k ∷ key) all (b ∷ bytes) h g l =
    both (xor_twice b k l.0 h.0) (unmask-unmask key all bytes h.1 g l.1)
