-- ===== src/Archive/Directory/Ends.antt =====
-- The loop of `readCentralDirectory` comes to an end: the fuel of one unit to a byte is enough.
use browserlogin_client.Prelude.{
  ℕ, zero, suc, ◌+◌, ◌≤◌, false, Option, some, List, ltb, length, Bool-cases, inl, inr, ◌≡◌, refl,
  arith,
}
use browserlogin_client.Archive.Names.{Checked, ok, err, ◌>>=◌}
use browserlogin_client.Archive.Directory.{
  Scan, new_scan, read_entry, after_entry, read_entries, finish_scan, Located, scan_central,
  read_end, read_central_directory,
}
use browserlogin_client.Archive.Bytes.{Reader, Entry, read_header}

-- A record of the central directory takes 46 bytes or more.
read_header-end_ : (central : List ℕ) (offset : ℕ) → offset + 46 ≤ (read_header central offset).end_
unfolding read_header
read_header-end_ central offset = omega arith

after_entry-ends :
    {A : Type 0} (c : Checked A) (f : A → Option (Checked A))
    → ((a : A) → (d : Checked A) × (f a ≡ some d))
    → (d : Checked A) × (after_entry c f ≡ some d)
unfolding after_entry
after_entry-ends (ok a) f h = h a
after_entry-ends (err e) f h = (err e, refl)

read_entries-ends :
    (fuel : ℕ) (r : Reader) (central : List ℕ) (offset : ℕ) (s : Scan)
    → length central ≤ offset + fuel
    → (c : Checked Scan) × (read_entries fuel r central offset s ≡ some c)
unfolding read_entries
read_entries-ends zero r central offset s h =
    let done : ltb offset (length central) ≡ false = ground (arith, h) in (ok s, rw done refl)
read_entries-ends (suc fuel) r central offset s h =
    elim (Bool-cases (ltb offset (length central))) [
      | inl more ↦
          let longer = read_header-end_ central offset in
          let (c, e) =
            after_entry-ends (read_entry r central offset s)
              (read_entries fuel r central (read_header central offset).end_)
              (λ t. read_entries-ends fuel r central _ t (omega (arith, h, longer))) in
          (c, rw more e)
      | inr done ↦ (ok s, rw done refl)
    ]

scan_central-ends :
    (r : Reader) (m : Checked Located) → (c : Checked (List Entry)) × (scan_central r m ≡ some c)
unfolding scan_central
scan_central-ends r (err e) = (err e, refl)
scan_central-ends r (ok m) =
    let (c, e) = read_entries-ends (length m.central) r m.central 0 new_scan (omega arith) in
    (c >>= finish_scan r m.entry_count, rw e refl)

pub read_central_directory-ends :
    (r : Reader) (bytes : List ℕ)
    → (c : Checked (List Entry)) × (read_central_directory r bytes ≡ some c)
unfolding read_central_directory
read_central_directory-ends r bytes = scan_central-ends r (read_end r bytes)
