-- ===== src/AttrFind/Host/Alias.antt =====
-- The buffers of an NTFS_INDEX_HOST.
use ntfs_efi.Prelude.{
  ℕ, ◌*◌, ◌≡◌, ◌≢◌, ◌↔◌, refl, sym, ◌∙◌, true, false, not, ◌&&◌, ◌||◌, Option, none, some, List, [],
  length, leb, ◌==◌, Bool-cases, Option-cases, inl, inr, ==_iff,
}
use ntfs_efi.Prelude.Status.{Result, ok, err, ◌>>=◌, ok_injective}
use ntfs_efi.Disk.{DiskIo}
use ntfs_efi.Attr.{read_attr}
use ntfs_efi.AttrFind.{
  find_attr_in_record, attribute_attribute_list, attr_data_length, list_item_size,
}
use ntfs_efi.AttrFind.Host.{
  attribute_index_root, index_name, Buffer, base_buffer, rec_buffer, root_buffer, HostRecord,
  IndexHost, IndexPlaces, no_places, place_loop, host_index, base_record, load_record, host_record,
  root_record, check_root, resolve_places, resolve_base, resolve_index_host,
}

-- A step that succeeds has a value, on which the rest succeeds.
passed_on :
    {A B : Type 0} {out : B} (step : Result A) (rest : A → Result B)
    → (step >>= rest) ≡ ok out
    → (value : A) × ((step ≡ ok value) × (rest value ≡ ok out))
passed_on (err e) rest h = cc
passed_on (ok value) rest h = (value, (refl, h))

module _ (read_record : ℕ → Option (List ℕ)) (base : List ℕ) (base_mft : ℕ) where
  -- The record in a buffer is the one of its index: the caller's, in the caller's buffer, or one that was read.
  pub record IsPlaced (r : HostRecord) : Type 0 where
    pub base_bytes : r.mft_index ≡ base_mft → r.image ≡ base
    pub true_bytes : r.mft_index ≢ base_mft → read_record r.mft_index ≡ some r.image
    pub base_place : (r.buffer ≡ base_buffer) ↔ (r.mft_index ≡ base_mft)

  -- Both records are placed, one buffer stands for one record, and each buffer that was allocated has one owner.
  pub record IsResolved (h : IndexHost) : Type 0 where
    pub host_placed : IsPlaced h.host
    pub root_placed : IsPlaced h.root
    pub one_buffer : (h.host.buffer ≡ h.root.buffer) ↔ (h.host.mft_index ≡ h.root.mft_index)
    pub host_owned : (h.host.own ≡ true) ↔ (h.host.buffer ≢ base_buffer)
    pub root_owned :
        (h.root.own ≡ true) ↔ ((h.root.buffer ≢ base_buffer) × (h.root.buffer ≢ h.host.buffer))
    pub rooted : find_attr_in_record h.root.image attribute_index_root index_name ≢ none

  base_record-IsPlaced : IsPlaced (base_record base base_mft)
  unfolding base_record
  base_record-IsPlaced = record {
    base_bytes = λ e. refl;
    true_bytes = λ n. absurd (n refl);
    base_place = (λ e. refl, λ e. refl);
  }

  load_record_ok :
      (buffer : Buffer) (k : ℕ) (r : HostRecord)
      → buffer ≢ base_buffer
      → k ≢ base_mft
      → load_record read_record buffer k ≡ ok r
      → IsPlaced r × (r.mft_index ≡ k) × (r.buffer ≡ buffer) × (r.own ≡ true)
  unfolding load_record
  load_record_ok buffer k r apart other h = elim (Option-cases (read_record k)) [
    | inl bad ↦ cc (rw (load_record, bad) at h)
    | inr (image, good) ↦
        let e : r ≡ record { buffer = buffer; image = image; mft_index = k; own = true } =
          sym (ok_injective (rw (load_record, good) at h)) in
        rw e (
          record {
            base_bytes = λ q. absurd (other q);
            true_bytes = λ n. good;
            base_place = (λ q. absurd (apart q), λ q. absurd (other q));
          },
          refl,
          refl,
          refl,
        )
  ]

  host_record_ok :
      (k : ℕ) (r : HostRecord)
      → host_record read_record base base_mft k ≡ ok r
      → IsPlaced r × ((r.own ≡ true) ↔ (r.buffer ≢ base_buffer)) × (r.buffer ≢ root_buffer)
  unfolding host_record
  host_record_ok k r h = elim (Bool-cases (k == base_mft)) [
    | inl same ↦
        let e : r ≡ base_record base base_mft = sym (ok_injective (rw (host_record, same) at h)) in
        rw e (
          base_record-IsPlaced,
          unfold base_record in (λ q. cc, λ n. absurd (n refl)),
          unfold base_record in (λ q. cc),
        )
    | inr other ↦
        let (w, i, b, o) =
          load_record_ok rec_buffer k r (λ q. cc) (λ q. cc (other, (==_iff k base_mft).1 q))
            (rw (host_record, other) at h) in
        (w, (λ q. λ n. cc, λ n. o), λ q. cc)
  ]

  root_record_ok :
      (h : HostRecord) (k : ℕ) (r : HostRecord)
      → IsPlaced h
      → h.buffer ≢ root_buffer
      → root_record read_record base base_mft h k ≡ ok r
      → IsPlaced r
        × ((h.buffer ≡ r.buffer) ↔ (h.mft_index ≡ r.mft_index))
        × ((r.own ≡ true) ↔ ((r.buffer ≢ base_buffer) × (r.buffer ≢ h.buffer)))
  unfolding root_record
  root_record_ok h k r w apart q = elim (Bool-cases (k == h.mft_index)) [
    | inl same ↦
        let e : r ≡ record h { own = false } = sym (ok_injective (rw (root_record, same) at q)) in
        rw e (
          record {
            base_bytes = w.base_bytes;
            true_bytes = w.true_bytes;
            base_place = w.base_place;
          },
          (λ _. refl, λ _. refl),
          (λ t. cc, λ (n, m). absurd (m refl)),
        )
    | inr other ↦ elim (Bool-cases (k == base_mft)) [
      | inl home ↦
          let e : r ≡ base_record base base_mft =
            sym (ok_injective (rw (root_record, other, home) at q)) in
          let at_base = (==_iff k base_mft).0 home in
          rw e (
            base_record-IsPlaced,
            unfold base_record in w.base_place,
            unfold base_record in (λ t. cc, λ (n, m). absurd (n refl)),
          )
      | inr away ↦
          let (v, i, b, o) =
            load_record_ok root_buffer k r (λ t. cc) (λ t. cc (away, (==_iff k base_mft).1 t))
              (rw (root_record, other, away) at q) in
          (
            v,
            (
              λ t. absurd (apart (t ∙ b)),
              λ t. cc (other, (==_iff k h.mft_index).1 (sym i ∙ sym t)),
            ),
            (λ t. (λ n. cc, λ n. apart (sym n ∙ b)), λ t. o),
          )
    ]
  ]

  check_root_ok :
      (h g : IndexHost)
      → check_root h ≡ ok g
      → (g ≡ h) × (find_attr_in_record h.root.image attribute_index_root index_name ≢ none)
  unfolding check_root
  check_root_ok h g q =
      elim (Option-cases (find_attr_in_record h.root.image attribute_index_root index_name)) [
        | inl bad ↦ cc (rw (check_root, bad) at q)
        | inr (f, good) ↦ (sym (ok_injective (rw (check_root, good) at q)), λ n. cc)
      ]

  resolve_places-IsResolved :
      (s : IndexPlaces) (h : IndexHost)
      → resolve_places read_record base base_mft s ≡ ok h
      → IsResolved h
  unfolding resolve_places
  resolve_places-IsResolved s h q = elim (Option-cases s.root_mft) [
    | inl nowhere ↦ cc (rw (resolve_places, nowhere) at q)
    | inr (k, there) ↦
        let ((i, a), (hi, q1)) = passed_on (host_index k s) _ (rw (resolve_places, there) at q) in
        let (x, (hx, q2)) = passed_on (host_record read_record base base_mft i) _ q1 in
        let (r, (hr, q3)) = passed_on (root_record read_record base base_mft x k) _ q2 in
        let (same, rooted) = check_root_ok (record { host = x; root = r; has_alloc = a }) h q3 in
        let (w, own, apart) = host_record_ok i x hx in
        let (v, one, root_own) = root_record_ok x k r w apart hr in
        rw same (record {
          host_placed = w;
          root_placed = v;
          one_buffer = one;
          host_owned = own;
          root_owned = root_own;
          rooted = rooted;
        })
  ]

  resolve_base-IsResolved : (h : IndexHost) → resolve_base base base_mft ≡ ok h → IsResolved h
  unfolding resolve_base
  resolve_base-IsResolved h q =
      elim (Option-cases (find_attr_in_record base attribute_index_root index_name)) [
        | inl bad ↦ cc (rw (resolve_base, bad) at q)
        | inr (f, good) ↦ rw (← (ok_injective (rw (resolve_base, good) at q))) (record {
          host_placed = base_record-IsPlaced;
          root_placed = base_record-IsPlaced;
          one_buffer = (λ t. refl, λ t. refl);
          host_owned = unfold base_record in (λ t. cc, λ n. absurd (n refl));
          root_owned = unfold base_record in (λ t. cc, λ (n, m). absurd (n refl));
          rooted = unfold base_record in λ n. cc;
        })
      ]

  -- When NtfsEfiResolveIndexHost succeeds, whatever the bytes of the record and of the list are: the record it
  -- names as the $INDEX_ROOT's has an $INDEX_ROOT of name $I30; each of the two records is the caller's if it has
  -- the caller's index, and the one read from its index otherwise; the two stand in one buffer exactly if they
  -- have one index; and each buffer that was allocated, and no other, has exactly one owner.
  pub resolve_index_host-IsResolved :
      (io : DiskIo) (bpc : ℕ) (d : io.Disk) (h : IndexHost)
      → resolve_index_host io bpc d read_record base base_mft ≡ ok h
      → IsResolved h
  unfolding resolve_index_host
  resolve_index_host-IsResolved io bpc d h q =
      elim (Option-cases (find_attr_in_record base attribute_attribute_list [])) [
        | inl alone ↦ resolve_base-IsResolved h (rw (resolve_index_host, alone) at q)
        | inr (list, there) ↦
            let n = attr_data_length list.image in
            let items = (read_attr io bpc d list.ctx 0 (attr_data_length list.image)).0 in
            elim (Bool-cases
              (not (leb list_item_size n && leb n (1024 * 1024)) || not (length items == n))) [
                | inl bad ↦ cc (rw (resolve_index_host, there, bad) at q)
                | inr good ↦
                    resolve_places-IsResolved (place_loop n items no_places) h
                      (rw (resolve_index_host, there, good) at q)
              ]
      ]
