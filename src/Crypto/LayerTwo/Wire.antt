-- ===== src/Crypto/LayerTwo/Wire.antt =====
-- The bytes of a layer 2 frame, src/crypto/crypto_layer2.c.
use mathlib.Core.List.{append-nil}
use ne_multi_core.Base.{
  ℕ, zero, suc, ◌+◌, ◌*◌, ◌^◌, ◌≡◌, refl, ap, ◌∙◌, arith, [], ◌∷◌, ◌++◌, length, take, drop,
  length-append,
}
use ne_multi_core.Fragment.{Bytes, byte_at, ethertype}

-- Where a frame is cut: `j` is `k` bytes behind `xs`.
pub byte-append :
    (xs ys : Bytes) (j k : ℕ) → j ≡ length xs + k → byte_at (xs ++ ys) j ≡ byte_at ys k
byte-append [] ys j k e = let e' : j ≡ k = omega (arith, e) in ap (byte_at ys) e'
byte-append (x ∷ xs) ys zero k e = absurd (omega (arith, e))
byte-append (x ∷ xs) ys (suc j) k e = byte-append xs ys j k (omega (arith, e))

pub drop_past : (xs ys : Bytes) (j k : ℕ) → j ≡ length xs + k → drop j (xs ++ ys) ≡ drop k ys
drop_past [] ys j k e = let e' : j ≡ k = omega (arith, e) in ap (λ i. drop i ys) e'
drop_past (x ∷ xs) ys zero k e = absurd (omega (arith, e))
drop_past (x ∷ xs) ys (suc j) k e = drop_past xs ys j k (omega (arith, e))

pub take_past : (xs ys : Bytes) (j k : ℕ) → j ≡ length xs + k → take j (xs ++ ys) ≡ xs ++ take k ys
take_past [] ys j k e = let e' : j ≡ k = omega (arith, e) in ap (λ i. take i ys) e'
take_past (x ∷ xs) ys zero k e = absurd (omega (arith, e))
take_past (x ∷ xs) ys (suc j) k e = ap (λ l. x ∷ l) (take_past xs ys j k (omega (arith, e)))

-- The start of every encrypted frame: MAC addresses, EtherType, policy, worker and nonce.
abbrev pub wire : Bytes → ℕ → ℕ → ℕ → ℕ → Bytes → Bytes → Bytes
wire macs hi lo policy_id worker_idx nonce rest =
    macs ++ (hi ∷ lo ∷ policy_id ∷ worker_idx ∷ (nonce ++ rest))

module _ (macs nonce rest : Bytes) (hi lo policy_id worker_idx : ℕ) (m : length macs ≡ 12)
    (n : length nonce ≡ 12) where
  abbrev frame : Bytes
  frame = wire macs hi lo policy_id worker_idx nonce rest

  pub wire-length : length frame ≡ 28 + length rest
  wire-length = omega (
    arith,
    length-append macs (hi ∷ lo ∷ policy_id ∷ worker_idx ∷ (nonce ++ rest)),
    length-append nonce rest,
    m,
    n,
  )

  abbrev tail : Bytes
  tail = hi ∷ lo ∷ policy_id ∷ worker_idx ∷ (nonce ++ rest)

  pub wire-type : ethertype frame ≡ hi * 2 ^ 8 + lo
  wire-type =
      rw
        (
          byte-append macs tail 12 0 (omega (arith, m)),
          byte-append macs tail 13 1 (omega (arith, m)),
        )
        refl

  pub wire-worker : byte_at frame 15 ≡ worker_idx
  wire-worker = byte-append macs tail 15 3 (omega (arith, m))

  pub wire-rest : (j k : ℕ) → j ≡ 28 + k → byte_at frame j ≡ byte_at rest k
  wire-rest j k e =
      byte-append macs tail j (4 + (12 + k)) (omega (arith, m, e))
      ∙ byte-append (hi ∷ lo ∷ policy_id ∷ worker_idx ∷ nonce) rest (4 + (12 + k)) k
          (omega (arith, n))

  pub wire-nonce : take 12 (drop 16 frame) ≡ nonce
  wire-nonce =
      ap (take 12) (drop_past macs tail 16 4 (omega (arith, m)))
      ∙ take_past nonce rest 12 0 (omega (arith, n))
      ∙ append-nil nonce

  pub wire-payload : (j k : ℕ) → j ≡ 28 + k → drop j frame ≡ drop k rest
  wire-payload j k e =
      drop_past macs tail j (4 + (12 + k)) (omega (arith, m, e))
      ∙ drop_past (hi ∷ lo ∷ policy_id ∷ worker_idx ∷ nonce) rest (4 + (12 + k)) k
          (omega (arith, n))

  pub wire-eth : take 14 frame ≡ macs ++ (hi ∷ lo ∷ [])
  wire-eth = take_past macs tail 14 2 (omega (arith, m))

  pub wire-macs : take 12 frame ≡ macs
  wire-macs = take_past macs tail 12 0 (omega (arith, m)) ∙ append-nil macs
