-- ===== src/Watchlist/Capacity.antt =====
-- The size that is computed for a watchlist's map, and what is put into it.
use bouclier_bleu.Base.{
  ℕ, ◌+◌, ◌≤◌, ◌<◌, ◌^◌, ◌≡◌, refl, ap, Bool, List, [], ◌∷◌, length, Text, arith, Outcome, ok, err,
  inl, inr,
}
use bouclier_bleu.Reader.{Endian, Bytes}
use bouclier_bleu.Base.{Line, Option-cases}
use bouclier_bleu.Exec.{◌>>=◌, continue}
use bouclier_bleu.Watchlist.{
  EntryType, DirEntry, Disk, Bpf, Work, Setup, index_path, matches_in, count_matches, with_buffer,
  buffered, calculate_dynamic_capacity, for_each, index_entry, set_flag, flag,
  get_secure_hardware_key, populate_map_from_paths,
}

le-with_buffer : (count floor : ℕ) → count < 2 ^ 31 → count ≤ with_buffer count floor
unfolding with_buffer buffered
le-with_buffer count floor h = ground arith

floor-with_buffer : (count floor : ℕ) → floor ≤ with_buffer count floor
unfolding with_buffer
floor-with_buffer count floor = ground arith

-- The sum of the costs.
abbrev pub total : {A : Type 0} → (A → ℕ) → List A → ℕ
total cost [] = 0
total cost (x ∷ xs) = cost x + total cost xs

total-one : {A : Type 0} (xs : List A) → total (λ _. 1) xs ≡ length xs
total-one [] = refl
total-one (x ∷ xs) = omega (arith, total-one xs)

total-count_matches :
    (disk : Disk) (entry_type : EntryType) (ignore_hidden : Bool) (allow_hidden paths : List Text)
    → total (λ path. length (matches_in disk entry_type ignore_hidden allow_hidden path)) paths
      ≡ count_matches disk entry_type ignore_hidden allow_hidden paths
unfolding count_matches
total-count_matches disk t ih ah [] = refl
total-count_matches disk t ih ah (path ∷ paths) =
    ap (λ n. length (matches_in disk t ih ah path) + n) (total-count_matches disk t ih ah paths)

module _ (bpf : Bpf) (room : bpf.Object → ℕ) where
  -- What the kernel documents of a map that is not full: it takes an update, which uses the room of
  -- one entry at most.
  abbrev pub TakesUpdates : Type 0
  TakesUpdates =
      (name : Text) (key value : Bytes) (o : bpf.Object) (n : ℕ)
      → n + 1 ≤ room o
      → (o' : bpf.Object) × (bpf.update name key value o ≡ ok o') × (n ≤ room o')

  -- Work that succeeds and leaves the room `n`.
  abbrev pub Leaves : ℕ → Outcome Line (Unit {0}) × Setup bpf.Object → Type 0
  Leaves n r = (r.0 ≡ ok tt) × (n ≤ room r.1.object)

  continue-Leaves :
      (r : Outcome Line (Unit {0}) × Setup bpf.Object) (next : Work bpf) (m n : ℕ)
      → Leaves m r
      → ((s : Setup bpf.Object) → m ≤ room s.object → Leaves n (next s))
      → Leaves n (continue (λ _. next) r)
  continue-Leaves (ok _, o) next m n h k = k o h.1
  continue-Leaves (err why, o) next m n h k = cc (h.0)

  for_each-Leaves :
      {A : Type 0} (body : A → Work bpf) (cost : A → ℕ) (xs : List A) (o : Setup bpf.Object) (n : ℕ)
      → ((x : A) (o : Setup bpf.Object) (n : ℕ) → n + cost x ≤ room o.object → Leaves n (body x o))
      → n + total cost xs ≤ room o.object
      → Leaves n (for_each bpf body xs o)
  unfolding for_each ◌>>=◌
  for_each-Leaves body cost [] o n each h = (refl, omega (arith, h))
  for_each-Leaves body cost (x ∷ xs) o n each h =
      continue-Leaves (body x o) (for_each bpf body xs) (n + total cost xs) n
        (each x o (n + total cost xs) (omega (arith, h)))
        (λ o' room'. for_each-Leaves body cost xs o' n each room')

  module _ (takes : TakesUpdates) (disk : Disk) (e : Endian) (map_name : Text) where
    index_entry-Leaves :
        (entry : DirEntry) (o : Setup bpf.Object) (n : ℕ)
        → n + 1 ≤ room o.object
        → Leaves n (index_entry disk bpf e map_name entry o)
    unfolding index_entry set_flag
    index_entry-Leaves entry o n h =
        elim (Option-cases (get_secure_hardware_key disk e entry.path)) [
          | inl unreadable ↦ rw unreadable (refl, omega (arith, h))
          | inr (key, readable) ↦
              let (o', updated, left) = takes map_name key (flag bpf) o.object n h in
              rw readable (rw (set_flag, updated) (refl, left))
        ]

    -- The size that the daemon computes for the map of a watchlist is enough, if fewer than 2 ^ 31 paths
    -- are counted, which is what the 32-bit counter holds: if a map with room for
    -- that many entries takes updates until it is full, then indexing the paths that were counted
    -- succeeds, and the room beyond that size is left.
    pub populate-Leaves :
        (target_paths : List Text) (entry_type : EntryType) (ignore_hidden : Bool)
        (allow_hidden : List Text) (module_slug : Text) (min_capacity : ℕ) (o : Setup bpf.Object)
        (n : ℕ)
        → count_matches disk entry_type ignore_hidden allow_hidden target_paths < 2 ^ 31
        → n
            + calculate_dynamic_capacity disk entry_type ignore_hidden allow_hidden target_paths
                min_capacity
          ≤ room o.object
        → Leaves n (
            populate_map_from_paths disk bpf e map_name target_paths entry_type ignore_hidden
              allow_hidden module_slug o)
    unfolding populate_map_from_paths index_path ◌>>=◌ calculate_dynamic_capacity
    populate-Leaves target_paths entry_type ignore_hidden allow_hidden module_slug min_capacity o n
          few h =
        let found = matches_in disk entry_type ignore_hidden allow_hidden in
        let counted = total-count_matches disk entry_type ignore_hidden allow_hidden target_paths in
        let enough =
          le-with_buffer (count_matches disk entry_type ignore_hidden allow_hidden target_paths)
            min_capacity few in
        for_each-Leaves _ (λ path. length (found path)) target_paths o n
          (λ path o' m h'.
            for_each-Leaves _ (λ _. 1) (found path) _ m index_entry-Leaves
              (omega (arith, h', total-one (found path))))
          (omega (arith, h, counted, enough))
