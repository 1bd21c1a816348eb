-- ===== src/Wifi/Bridge/Kernel/Published.antt =====
-- The records of a scan in the kernel (guest/devices/wifi_bridge.py, `serve`).
use ashacky.Base.{
  ◌==◌, if◌then◌else◌, Bool-cases, length, take, drop, take-append, take_all, Bytes, Error, Result,
  outcome, err, ok, ℕ, zero, suc, ◌+◌, ◌<◌, ◌≡◌, refl, sym, ap, ◌∙◌, ◌⊎◌, inl, inr, Bool, true,
  false, ◌&&◌, List, [], ◌∷◌, ◌++◌, arith,
}
use ashacky.Base.Packing.{little, unpack_little, unpack_little-little, unpack_little-little_two}
use ashacky.Base.Int.{residue, residue_bound}
use ashacky.Wifi.Scan.{Bss, frequency}
use ashacky.Wifi.Bridge.Kernel.{
  KernelCall, scan_packet, write_records, finish_scan, abort_scan, publish_scan, scan_written,
  scan_finished, scan_aborted,
}

-- `os.write` took every packet whole
abbrev pub is_whole : Result ℕ → ℕ → Bool
is_whole (err e) size = false
is_whole (ok n) size = n == size

unfoldable pub all_whole : (ℕ → Bytes → Result ℕ) → ℕ → ℕ → List Bss → Bool
all_whole written number k [] = true
all_whole written number k (b ∷ bs) =
    is_whole (written k (scan_packet number b)) (length (scan_packet number b))
    && all_whole written number (suc k) bs

unfoldable pub record_calls : ℕ → List Bss → List KernelCall
record_calls number [] = []
record_calls number (b ∷ bs) = scan_written (scan_packet number b) ∷ record_calls number bs

write_records-ok :
    (written : ℕ → Bytes → Result ℕ) (number k : ℕ) (bs : List Bss) (u : Unit {0})
    → (write_records written number k bs).1 ≡ ok u
    → (all_whole written number k bs ≡ true)
      × ((write_records written number k bs).0 ≡ record_calls number bs)
unfolding write_records all_whole record_calls
write_records-ok written number k [] u h = (refl, refl)
write_records-ok written number k (b ∷ bs) u h = elim (outcome (written k (scan_packet number b))) [
  | inr (e, w) ↦ ground arith
  | inl (n, w) ↦ elim (Bool-cases (n == length (scan_packet number b))) [
    | inr short ↦ ground arith
    | inl whole ↦ ground (arith, write_records-ok written number (suc k) bs u)
  ]
]

abort_scan-cases :
    (number : ℕ) (calls : List KernelCall) (result : Result (Unit {0}))
    → ((result ≡ ok tt) × (abort_scan number (calls, result) ≡ (calls, ok tt)))
      ⊎ ((e : Error) × (result ≡ err e)
          × (abort_scan number (calls, result) ≡ (calls ++ scan_aborted number ∷ [], err e)))
unfolding abort_scan
abort_scan-cases number calls (ok u) = inl (refl, refl)
abort_scan-cases number calls (err e) = inr (e, refl, refl)

finish_scan-ok :
    (number : ℕ) (finished : Result (Unit {0})) (calls : List KernelCall)
    (result : Result (Unit {0}))
    → (finish_scan number finished (calls, result)).1 ≡ ok tt
    → (result ≡ ok tt)
      × ((finish_scan number finished (calls, result)).0 ≡ calls ++ scan_finished number ∷ [])
unfolding finish_scan
finish_scan-ok number finished calls (ok u) h = (refl, refl)
finish_scan-ok number finished calls (err e) h = ground arith

-- The outcome of a scan request.
abbrev pub IsFinished :
    Result (List Bss) → (ℕ → Bytes → Result ℕ) → ℕ → List KernelCall × Result (Unit {0}) → Type 0
IsFinished scanned written number (calls, result) =
    (records : List Bss) × (scanned ≡ ok records)
    × (all_whole written number 0 records ≡ true)
    × (calls ≡ record_calls number records ++ scan_finished number ∷ [])
    × (result ≡ ok tt)

abbrev pub IsAborted : ℕ → List KernelCall × Result (Unit {0}) → Type 0
IsAborted number (calls, result) =
    (before : List KernelCall) × (e : Error) × (calls ≡ before ++ scan_aborted number ∷ [])
    × (result ≡ err e)

-- A scan request always ends: either the scan returned, each of its records was written whole, in their
-- order and under the number of the request, and then the scan was finished under this number,
-- which succeeded; or an error ended it and the last call to the kernel aborts this number.
pub publish_scan_ends :
    (scanned : Result (List Bss)) (written : ℕ → Bytes → Result ℕ) (finished : Result (Unit {0}))
    (number : ℕ)
    → IsFinished scanned written number (publish_scan scanned written finished number)
      ⊎ IsAborted number (publish_scan scanned written finished number)
unfolding publish_scan
publish_scan_ends (err e) written finished number = elim (abort_scan-cases number [] (err e)) [
  | inl (n, _) ↦ ground arith
  | inr (x, same, a) ↦ inr ([], x, ap (λ p. p.0) a, ap (λ p. p.1) a)
]
publish_scan_ends (ok records) written finished number =
    let w = write_records written number 0 records in
    let f = finish_scan number finished w in
    elim (abort_scan-cases number f.0 f.1) [
      | inr (x, same, a) ↦ inr (f.0, x, ap (λ p. p.0) a, ap (λ p. p.1) a)
      | inl (fine, a) ↦
          let (wrote, calls) = finish_scan-ok number finished w.0 w.1 fine in
          let (whole, all_calls) = write_records-ok written number 0 records tt wrote in
          inl (
            records,
            refl,
            whole,
            ap (λ p. p.0) a ∙ calls ∙ ap (λ cs. cs ++ scan_finished number ∷ []) all_calls,
            ap (λ p. p.1) a,
          )
    ]

-- What the kernel reads from a packet, at the offsets of its header: the number of the request, the
-- frequency, the two's complement of the signal, the capabilities, the address and the elements.
pub record PacketFields : Type 0 where
  pub number_field : ℕ
  pub frequency_field : ℕ
  pub signal_field : ℕ
  pub capability_field : ℕ
  pub address_field : Bytes
  pub elements_field : Bytes

unfoldable pub read_packet : Bytes → PacketFields
read_packet p = record {
  number_field = unpack_little (take 4 p);
  frequency_field = unpack_little (take 4 (drop 4 p));
  signal_field = unpack_little (take 4 (drop 8 p));
  capability_field = unpack_little (take 2 (drop 12 p));
  address_field = take 6 (drop 16 p);
  elements_field = take (unpack_little (take 2 (drop 22 p))) (drop 24 p);
}

drop_more : (xs ys : Bytes) (n k : ℕ) → n ≡ length xs + k → drop n (xs ++ ys) ≡ drop k ys
drop_more [] ys n k e = ap (λ m. drop m ys) (omega arith)
drop_more (x ∷ xs) ys zero k e = absurd (omega arith)
drop_more (x ∷ xs) ys (suc n) k e = drop_more xs ys n k (omega arith)

read_packet_fields :
    (p address elements : Bytes) (number frequency signal capability : ℕ)
    → unpack_little (take 4 p) ≡ number
    → unpack_little (take 4 (drop 4 p)) ≡ frequency
    → unpack_little (take 4 (drop 8 p)) ≡ signal
    → unpack_little (take 2 (drop 12 p)) ≡ capability
    → take 6 (drop 16 p) ≡ address
    → take (unpack_little (take 2 (drop 22 p))) (drop 24 p) ≡ elements
    → read_packet p ≡ record {
      number_field = number;
      frequency_field = frequency;
      signal_field = signal;
      capability_field = capability;
      address_field = address;
      elements_field = elements;
    }
unfolding read_packet
read_packet_fields p address elements number frequency signal capability a b c d e f = cc

capability_bound : (b : Bool) → (if b then 1 else 17) < 65536
capability_bound true = omega arith
capability_bound false = omega arith

-- A packet, of a number and a frequency below 2 ^ 32 and a record with an address of six bytes and fewer
-- than 65,536 bytes of elements, is read as the record: every field at its offset, the elements to
-- the last.
pub read_packet-scan_packet :
    (number : ℕ) (b : Bss)
    → number < 4294967296
    → b.frequency_mhz < 4294967296
    → length b.bssid ≡ 6
    → length b.information_elements < 65536
    → read_packet (scan_packet number b) ≡ record {
      number_field = number;
      frequency_field = b.frequency_mhz;
      signal_field = residue 4294967296 b.signal_mbm;
      capability_field = if b.open_network then 1 else 17;
      address_field = b.bssid;
      elements_field = b.information_elements;
    }
unfolding read_packet scan_packet
read_packet-scan_packet number b n f a l =
    let es = b.information_elements in
    let rest = little 2 (length es) ++ es in
    let size = unpack_little-little_two (length es) l in
    let whole : (n : ℕ) → n ≡ length es → take n (drop 8 (b.bssid ++ rest)) ≡ es =
      λ n e. rw (drop_more b.bssid rest 8 2 (omega arith)) (take_all n es (omega arith)) in
    let elements : take (unpack_little (take 2 (drop 6 (b.bssid ++ rest))))
          (drop 8 (b.bssid ++ rest))
        ≡ es =
      whole (unpack_little (take 2 (drop 6 (b.bssid ++ rest))))
        (rw (drop_more b.bssid rest 6 0 (omega arith)) size) in
    read_packet_fields (scan_packet number b) b.bssid es number b.frequency_mhz
      (residue 4294967296 b.signal_mbm) (if b.open_network then 1 else 17)
      (unpack_little-little number n) (unpack_little-little b.frequency_mhz f)
      (unpack_little-little (residue 4294967296 b.signal_mbm)
        (residue_bound 4294967296 b.signal_mbm (omega arith)))
      (unpack_little-little_two (if b.open_network then 1 else 17)
        (capability_bound b.open_network))
      (take-append 6 b.bssid rest (sym a)) elements
