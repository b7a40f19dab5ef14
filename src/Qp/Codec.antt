-- ===== src/Qp/Codec.antt =====
-- The little-endian encoding of bincode for endpoints and regions, as a value of its interface in
-- Qp.Attributes.
use ibv.Prelude.{
  ℕ, zero, suc, ◌+◌, ◌*◌, ◌/◌, ◌%◌, ◌<◌, ◌≡◌, refl, ap, Option, some, List, [], ◌∷◌, ◌++◌, length,
  length-append, take, drop, arith,
}
use ibv.Mr.Region.{RemoteMr}
use ibv.Qp.Attributes.{EndPoint, Bincode}

pub take-append : (n : ℕ) (xs ys : List ℕ) → length xs ≡ n → take n (xs ++ ys) ≡ xs
take-append zero [] ys e = refl
take-append zero (x ∷ xs) ys e = absurd (omega (arith, e))
take-append (suc n) [] ys e = absurd (omega (arith, e))
take-append (suc n) (x ∷ xs) ys e = ap (λ l. x ∷ l) (take-append n xs ys (omega (arith, e)))

pub drop-append : (n : ℕ) (xs ys : List ℕ) → length xs ≡ n → drop n (xs ++ ys) ≡ ys
drop-append zero [] ys e = refl
drop-append zero (x ∷ xs) ys e = absurd (omega (arith, e))
drop-append (suc n) [] ys e = absurd (omega (arith, e))
drop-append (suc n) (x ∷ xs) ys e = drop-append n xs ys (omega (arith, e))

-- `k` bytes of a number, the lowest first
unfoldable pub to_le : ℕ → ℕ → List ℕ
to_le zero n = []
to_le (suc k) n = n % 256 ∷ to_le k (n / 256)

unfoldable pub from_le : List ℕ → ℕ
from_le [] = 0
from_le (b ∷ bs) = b + 256 * from_le bs

length-to_le : (k n : ℕ) → length (to_le k n) ≡ k
unfolding to_le
length-to_le zero n = refl
length-to_le (suc k) n = ap suc (length-to_le k (n / 256))

-- the numbers of `k` bytes lie below this
abbrev pub byte_bound : ℕ → ℕ
byte_bound zero = 1
byte_bound (suc k) = 256 * byte_bound k

from_le-to_le : (k n : ℕ) → n < byte_bound k → from_le (to_le k n) ≡ n
unfolding to_le from_le
from_le-to_le zero n h = omega arith
from_le-to_le (suc k) n h = omega (arith, from_le-to_le k (n / 256) (omega arith))

abbrev pub FitsMr : RemoteMr → Type 0
FitsMr mr = (mr.addr < byte_bound 8) × (mr.length < byte_bound 4) × (mr.rkey < byte_bound 4)

unfoldable pub serialize_mr : RemoteMr → List ℕ
serialize_mr mr = to_le 8 mr.addr ++ (to_le 4 mr.length ++ to_le 4 mr.rkey)

unfoldable pub deserialize_mr : List ℕ → Option RemoteMr
deserialize_mr bytes = some (record {
  addr = from_le (take 8 bytes);
  length = from_le (take 4 (drop 8 bytes));
  rkey = from_le (drop 4 (drop 8 bytes));
})

pub length-serialize_mr : (mr : RemoteMr) → FitsMr mr → length (serialize_mr mr) ≡ 16
unfolding serialize_mr
length-serialize_mr mr fits =
    rw (length-append, length-append, length-to_le, length-to_le, length-to_le) refl

pub deserialize_mr-serialize_mr :
    (mr : RemoteMr) → FitsMr mr → deserialize_mr (serialize_mr mr) ≡ some mr
unfolding serialize_mr deserialize_mr
deserialize_mr-serialize_mr mr (a, b, c) =
    rw
      (
        take-append 8 (to_le 8 mr.addr) (to_le 4 mr.length ++ to_le 4 mr.rkey)
            (length-to_le 8 mr.addr),
        drop-append 8 (to_le 8 mr.addr) (to_le 4 mr.length ++ to_le 4 mr.rkey)
            (length-to_le 8 mr.addr),
        take-append 4 (to_le 4 mr.length) (to_le 4 mr.rkey) (length-to_le 4 mr.length),
        drop-append 4 (to_le 4 mr.length) (to_le 4 mr.rkey) (length-to_le 4 mr.length),
        from_le-to_le 8 mr.addr a,
        from_le-to_le 4 mr.length b,
        from_le-to_le 4 mr.rkey c,
      )
      refl

abbrev pub mr_codec : Bincode RemoteMr
mr_codec = record {
  Fits = FitsMr;
  size = 16;
  serialize = serialize_mr;
  deserialize = deserialize_mr;
  length-serialize = length-serialize_mr;
  deserialize-serialize = deserialize_mr-serialize_mr;
}

abbrev pub FitsEndPoint : EndPoint → Type 0
FitsEndPoint e = (length e.gid ≡ 16) × (e.qpn < byte_bound 4) × (e.lid < byte_bound 2)

unfoldable pub serialize_endpoint : EndPoint → List ℕ
serialize_endpoint e = e.gid ++ (to_le 4 e.qpn ++ to_le 2 e.lid)

unfoldable pub deserialize_endpoint : List ℕ → Option EndPoint
deserialize_endpoint bytes = some (record {
  gid = take 16 bytes;
  qpn = from_le (take 4 (drop 16 bytes));
  lid = from_le (drop 4 (drop 16 bytes));
})

pub length-serialize_endpoint : (e : EndPoint) → FitsEndPoint e → length (serialize_endpoint e) ≡ 22
unfolding serialize_endpoint
length-serialize_endpoint e (a, b, c) =
    rw (length-append, length-append, length-to_le, length-to_le, a) refl

pub deserialize_endpoint-serialize_endpoint :
    (e : EndPoint) → FitsEndPoint e → deserialize_endpoint (serialize_endpoint e) ≡ some e
unfolding serialize_endpoint deserialize_endpoint
deserialize_endpoint-serialize_endpoint e (a, b, c) =
    rw
      (
        take-append 16 e.gid (to_le 4 e.qpn ++ to_le 2 e.lid) a,
        drop-append 16 e.gid (to_le 4 e.qpn ++ to_le 2 e.lid) a,
        take-append 4 (to_le 4 e.qpn) (to_le 2 e.lid) (length-to_le 4 e.qpn),
        drop-append 4 (to_le 4 e.qpn) (to_le 2 e.lid) (length-to_le 4 e.qpn),
        from_le-to_le 4 e.qpn b,
        from_le-to_le 2 e.lid c,
      )
      refl

abbrev pub endpoint_codec : Bincode EndPoint
endpoint_codec = record {
  Fits = FitsEndPoint;
  size = 22;
  serialize = serialize_endpoint;
  deserialize = deserialize_endpoint;
  length-serialize = length-serialize_endpoint;
  deserialize-serialize = deserialize_endpoint-serialize_endpoint;
}
