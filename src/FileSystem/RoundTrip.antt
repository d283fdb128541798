-- ===== src/FileSystem/RoundTrip.antt =====
-- code/filesys/filesys.cc: a file that is created and removed.
use nachos_system_design.Base.{
  ℕ, ◌^◌, ◌<◌, ◌≤◌, ◌≡◌, refl, sym, ap, subst, ◌∙◌, Bool, true, none, some, List, All, length,
  length-set_all, lt→ltb, if◌then◌else◌, ok, Returns, arith, inl, inr, Bool-cases,
}
use nachos_system_design.CString.{strncmp_eq, strncmp_refl}
use nachos_system_design.Bitmap.{Bitmap}
use nachos_system_design.Bitmap.Bits.{is_marked, clear-Writes}
use nachos_system_design.Bitmap.Bits
use nachos_system_design.Bitmap.Search.{clears, clears-Writes}
use nachos_system_design.Directory.{Directory, file_name_max_len}
use nachos_system_design.Directory
use nachos_system_design.Directory.Lookup.{lookup-congr, find-lookup}
use nachos_system_design.Directory.Operations.{
  Adds, taken, no_space, added, add-Adds, Removes, missing, removed, remove-Removes,
}
use nachos_system_design.Directory.Operations
use nachos_system_design.Disk.{Disk, num_sectors_on_disk, with_sector, write_sector, to_bytes}
use nachos_system_design.FileHeader.{FileHeader, Storage, num_direct, image, write_back}
use nachos_system_design.FileHeader.Chain.{Taken, find_and_set-Taken}
use nachos_system_design.FileHeader.Direct.{
  sectors_for, Allocates, allocate-Allocates, deallocate-Allocates,
}
use nachos_system_design.FileHeader.Image.{
  IsHeader, fetch_from-with_sector, All-set_all, All-listed,
}
use nachos_system_design.FileSystem.{
  FileSystem, finish_create, with_sector_found, enter_file, create, remove_file,
}

-- An `Add` that succeeds.
record Added (d : Directory) (name : List ℕ) (k : ℕ) (r : Directory × Bool) : Type 0 where
  after : Directory
  run : r ≡ (after, true)
  valid : Operations.IsValid after
  finds :
      (t : List ℕ)
      → Directory.find after t
        ≡ (if strncmp_eq file_name_max_len name t then some k else Directory.find d t)

Adds-Added :
    {d : Directory} {name : List ℕ} {k : ℕ} {r : Directory × Bool}
    → Directory.find d name ≡ none
    → ¬ All (λ e. e.in_use ≡ true) d.table
    → Adds d name k r
    → Added d name k r
Adds-Added absent room (taken there) = absurd (there absent)
Adds-Added absent room (no_space full) = absurd (room full)
Adds-Added absent room (added d' gone v f) = record { after = d'; run = refl; valid = v; finds = f }

-- The header that `Allocate` leaves is a header.
Allocates-IsHeader :
    (fresh : FileHeader) (b : Bitmap) (disk : Disk) (size : ℕ) (r : Bool × Storage)
    → IsHeader fresh
    → b.num_bits ≤ num_sectors_on_disk
    → sectors_for size < num_direct
    → Allocates fresh b disk size r
    → IsHeader (r.1).0
Allocates-IsHeader fresh b disk size r i fits few a =
    let f = a.fills in
    record {
      table = ap length f.placed ∙ length-set_all f.sectors fresh.data_sectors 0 ∙ i.table;
      bytes_lt = omega (arith, a.bytes, few);
      sectors_lt = omega (arith, a.count, few);
      entries_lt =
          subst (λ ds. All (λ w. w < 2 ^ 32) ds) (sym f.placed)
            (All-set_all (λ w. w < 2 ^ 32) f.sectors fresh.data_sectors 0 i.entries_lt
              (All-listed (λ w. w < 2 ^ 32) f.sectors
                (λ j l. omega (arith, (f.takes.were_free j l).0, fits))));
      doubly_lt = omega (arith, a.same_doubly, i.doubly_lt);
    }

-- A `Remove` that succeeds.
Removes-finds :
    {d : Directory} {name : List ℕ} {k : ℕ} {r : Directory × Bool}
    → Directory.find d name ≡ some k
    → Removes d name r
    → (t : List ℕ)
    → Directory.find r.0 t
      ≡ (if strncmp_eq file_name_max_len name t then none else Directory.find d t)
Removes-finds there (missing gone) = cc
Removes-finds there (removed d' found v f) = f

-- A name that agrees with an absent one in nine characters is absent.
absent_alike :
    (d : Directory) (name t : List ℕ)
    → Directory.find d name ≡ none
    → strncmp_eq file_name_max_len name t ≡ true
    → Directory.find d t ≡ none
absent_alike d name t absent alike =
    find-lookup d t ∙ sym (lookup-congr d.table name t alike) ∙ sym (find-lookup d name) ∙ absent

stored_in : Directory → ℕ → Bool × Storage → FileSystem
stored_in d sector r = record {
  directory = d;
  free_map = (r.1).1;
  disk = with_sector (r.1).2 sector (to_bytes (image (r.1).0));
}

finish_create-ok :
    (fresh : FileHeader) (fs : FileSystem) (d : Directory) (sector : ℕ) (r : Bool × Storage)
    → r.0 ≡ true
    → sector < num_sectors_on_disk
    → finish_create fresh fs d sector r ≡ ok (true, stored_in d sector r)
unfolding finish_create write_back write_sector stored_in
finish_create-ok fresh fs d sector r e lt =
    ap (λ x. finish_create fresh fs d sector (x, r.1)) e
    ∙ rw (lt→ltb sector num_sectors_on_disk lt) refl

module _ (fresh : FileHeader) (fs : FileSystem) (name : List ℕ) (size : ℕ) (header : IsHeader fresh)
    (v : Bits.IsValid fs.free_map) (fits : fs.free_map.num_bits ≤ num_sectors_on_disk)
    (dv : Operations.IsValid fs.directory) (absent : Directory.find fs.directory name ≡ none)
    (entry : ¬ All (λ e. e.in_use ≡ true) fs.directory.table)
    (enough : sectors_for size < clears fs.free_map.num_bits (is_marked fs.free_map))
    (few : sectors_for size < num_direct) where
  -- What `Create` leaves behind.
  record Created (r : Bool × FileSystem) : Type 0 where
    found : Taken fs.free_map
    named : Added fs.directory name found.sector (Directory.add fs.directory name found.sector)
    stored : Bool × Storage
    allocates : Allocates fresh found.after fs.disk size stored
    result : r ≡ (true, stored_in named.after found.sector stored)

  create-Created : Returns (create fresh fs name size) Created
  unfolding create with_sector_found enter_file
  create-Created =
      let s = find_and_set-Taken fs.free_map v (omega (arith, enough)) in
      let d = Adds-Added absent entry (add-Adds fs.directory dv name s.sector) in
      let left = clears-Writes s.sector s.in_range s.was_free s.writes in
      let (r, run, a) =
        allocate-Allocates fresh s.after fs.disk size s.writes.valid
          (omega (arith, fits, s.writes.same_size)) (omega (arith, enough, left)) few in
      let ends =
        finish_create-ok fresh fs d.after s.sector r a.accepted (omega (arith, s.in_range, fits)) in
      rw (absent, s.run, d.run, run, create)
        (
          (true, stored_in d.after s.sector r),
          ends,
          record { found = s; named = d; stored = r; allocates = a; result = refl },
        )

  -- What `Remove` of the created file leaves behind.
  abbrev Restores : Bool × FileSystem → Type 0
  Restores q =
      (q.0 ≡ true)
      × Bits.IsValid q.1.free_map
      × ((j : ℕ) → is_marked q.1.free_map j ≡ is_marked fs.free_map j)
      × ((t : List ℕ) → Directory.find q.1.directory t ≡ Directory.find fs.directory t)

  names_kept :
      (d : Directory) (k : ℕ) (a : Added fs.directory name k (Directory.add fs.directory name k))
      → ((t : List ℕ)
          → Directory.find d t
            ≡ (if strncmp_eq file_name_max_len name t then none else Directory.find a.after t))
      → (t : List ℕ) → Directory.find d t ≡ Directory.find fs.directory t
  names_kept d k a f t = elim (Bool-cases (strncmp_eq file_name_max_len name t)) [
    | inl alike ↦ f t ∙ rw alike (sym (absent_alike fs.directory name t absent alike))
    | inr apart ↦ f t ∙ rw apart (a.finds t ∙ rw apart refl)
  ]

  Created-Restores : {r : Bool × FileSystem} → Created r → Returns (remove_file r.1 name) Restores
  unfolding remove_file stored_in
  Created-Restores {r} c =
      let s = c.found in
      let k = s.sector in
      let h = (c.stored.1).0 in
      let disk' = with_sector (c.stored.1).2 k (to_bytes (image h)) in
      let there : Directory.find c.named.after name ≡ some k =
        c.named.finds name ∙ rw (strncmp_refl file_name_max_len name) refl in
      let i =
        Allocates-IsHeader fresh s.after fs.disk size c.stored header
          (omega (arith, s.writes.same_size, fits)) few c.allocates in
      let fetched = fetch_from-with_sector h (c.stored.1).2 k i (omega (arith, s.in_range, fits)) in
      let left = clears-Writes k s.in_range s.was_free s.writes in
      let (q, run, (valid, size_kept, kept)) =
        deallocate-Allocates fresh s.after fs.disk size s.writes.valid
          (omega (arith, s.writes.same_size, fits)) (omega (arith, enough, left)) few
          (omega (arith, header.table)) disk' c.allocates in
      let (m, ran, w) =
        clear-Writes q.1 valid k (omega (arith, size_kept, s.writes.same_size, s.in_range)) in
      let gone = Removes-finds there (remove-Removes c.named.after c.named.valid name) in
      subst (λ x. Returns (remove_file x.1 name) Restores) (sym c.result)
        (rw (there, fetched, run, ran, remove_file)
          (
            _,
            refl,
            (
              refl,
              w.valid,
              λ j. ground (arith, w.reads j, kept j, s.writes.reads j, s.was_free),
              names_kept (Directory.remove c.named.after name).0 k c.named gone,
            ),
          ))

  -- For a file of fewer than 29 sectors whose name the directory does not find: with a free entry in
  -- a valid directory, a valid bitmap no larger than the disk, and one sector more clear than the
  -- file takes, `Create` succeeds, and `Remove` of the name then succeeds and undoes it: the bitmap
  -- is valid, every sector is as free or used as before, and every name leads where it led.
  pub create-remove_file : Returns (create fresh fs name size) λ r.
      (r.0 ≡ true)
      × Returns (remove_file r.1 name) λ q.
        (q.0 ≡ true)
        × Bits.IsValid q.1.free_map
        × ((j : ℕ) → is_marked q.1.free_map j ≡ is_marked fs.free_map j)
        × ((t : List ℕ) → Directory.find q.1.directory t ≡ Directory.find fs.directory t)
  create-remove_file =
      let (r, run, c) = create-Created in (r, run, (ap (λ x. x.0) c.result, Created-Restores c))
