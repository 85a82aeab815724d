-- ===== src/Capture/Reader.antt =====
-- `std::io::Read` as the script of what its calls will return, and the two loops of
-- l4scope/crates/l4scope-capture/src/pcapio.rs that fill a buffer from it.
pub mod Bytes
use network_l4_monitoring_co.Base.{
  ℕ, zero, suc, ◌-◌, String, List, [], ◌∷◌, ◌++◌, leb, if◌then◌else◌, length, take, drop, Option,
  none, some,
}
use network_l4_monitoring_co.Core.Error.{io, parse, Result, ok, err, ◌>>=◌}

-- Bytes that have arrived together, an interrupted call, or another failure. A call hands over at
-- most as many bytes as the buffer has room for, and the rest of the arrival stays. An empty arrival,
-- like the end of the script, is a call that returns 0.
pub data Arrival (E : Type 0) : Type 0 where
  chunk : List ℕ → Arrival E
  interrupted : Arrival E
  failed : E → Arrival E

abbrev pub Reader : Type 0 → Type 0
Reader E = List (Arrival E)

-- What is left of an arrival of which `n` bytes were handed over.
abbrev pub put_back : {E : Type 0} → List ℕ → Reader E → Reader E
put_back [] r = r
put_back (b ∷ bs) r = chunk (b ∷ bs) ∷ r

abbrev pub join :
    {E : Type 0} → List ℕ → Result E (List ℕ × Reader E) → Result E (List ℕ × Reader E)
join bs (ok (cs, r)) = ok (bs ++ cs, r)
join bs (err e) = err e

-- The loop that still wants `n` bytes; `ended` is the error of a call that returns 0. Each turn
-- calls `read` once, which uses an arrival up or fills the buffer.
unfoldable pub fill : {E : Type 0} → String → ℕ → Reader E → Result E (List ℕ × Reader E)
fill ended zero r = ok ([], r)
fill ended (suc n) [] = err (parse ended)
fill ended (suc n) (chunk [] ∷ r) = err (parse ended)
fill ended (suc n) (chunk (b ∷ bs) ∷ r) =
    let rest = fill ended (n - length bs) r in
    if leb (length bs) n then join (b ∷ bs) rest else ok (b ∷ take n bs, put_back (drop n bs) r)
fill ended (suc n) (interrupted ∷ r) = fill ended (suc n) r
fill ended (suc n) (failed e ∷ r) = err (io e)

unfoldable pub read_full : {E : Type 0} → ℕ → Reader E → Result E (List ℕ × Reader E)
read_full n r = fill "unexpected end of pcap stream" n r

-- `none` is `Ok(false)`, the end of the stream before any byte.
unfoldable pub read_full_opt : {E : Type 0} → ℕ → Reader E → Result E (Option (List ℕ) × Reader E)
read_full_opt zero r = ok (some [], r)
read_full_opt (suc n) [] = ok (none, [])
read_full_opt (suc n) (chunk [] ∷ r) = ok (none, r)
read_full_opt (suc n) (chunk (b ∷ bs) ∷ r) = do
  (got, r') ← fill "truncated pcap record header" (suc n) (chunk (b ∷ bs) ∷ r)
  ok (some got, r')
read_full_opt (suc n) (interrupted ∷ r) = read_full_opt (suc n) r
read_full_opt (suc n) (failed e ∷ r) = err (io e)
