-- ===== src/Archive/RoundTrip/Reached.antt =====
-- How far the scan has come behind the bytes that the packer has written.
use rgx.Common.{
  ℕ, suc, ◌+◌, ◌≡◌, ◌≤◌, ◌<◌, ap, ◌∙◌, ◌++◌, append_assoc, Bytes, length, length-append, ok, arith,
  Stream, stream,
}
use rgx.Format.{write_header}
use rgx.Archive.Scan.{ScanState, more, scan_round, scan_loop, start_scan}

abbrev pub header_bytes : Bytes
header_bytes = write_header (record { flags = 0 })

-- From the first record on, `rounds` rounds take the scan over `out` to the state `σ`, whatever
-- follows.
pub record Reached (out : Bytes) (σ : ScanState) : Type 0 where
  pub rounds : ℕ
  pub body : Bytes
  pub out_body : out ≡ header_bytes ++ body
  pub few : rounds ≤ length body
  pub scans :
      (fuel : ℕ) (rest : Bytes)
      → scan_loop (rounds + fuel) start_scan (stream 16 (body ++ rest))
        ≡ scan_loop fuel σ (stream (length out) rest)

loop_more :
    (fuel : ℕ) (σ σ' : ScanState) (s s' : Stream)
    → scan_round σ s ≡ ok (more σ', s')
    → scan_loop (suc fuel) σ s ≡ scan_loop fuel σ' s'
unfolding scan_loop
loop_more fuel σ σ' s s' e = rw (e, scan_loop)

-- One more record, which one round reads.
pub Reached-round :
    (out record_bytes : Bytes) (σ σ' : ScanState)
    → 0 < length record_bytes
    → ((rest : Bytes)
        → scan_round σ (stream (length out) (record_bytes ++ rest))
          ≡ ok (more σ', stream (length out + length record_bytes) rest))
    → Reached out σ
    → Reached (out ++ record_bytes) σ'
Reached-round out bytes σ σ' pos round r = record {
  rounds = r.rounds + 1;
  body = r.body ++ bytes;
  out_body = ap (λ (o : Bytes). o ++ bytes) r.out_body ∙ append_assoc header_bytes r.body bytes;
  few = omega (arith, r.few, length-append r.body bytes);
  scans = λ fuel rest.
      let e : r.rounds + 1 + fuel ≡ r.rounds + suc fuel = omega arith in
      rw (e, append_assoc r.body bytes rest, length-append out bytes)
        (r.scans (suc fuel) (bytes ++ rest) ∙ loop_more fuel σ σ' _ _ (round rest));
}
