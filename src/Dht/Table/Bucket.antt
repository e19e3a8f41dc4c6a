-- ===== src/Dht/Table/Bucket.antt =====
-- commonnet/dht/table.py: what `check_invariants` asserts of one bucket, and each change of a bucket.
use common_network.Prelude.{
  ℕ, ◌≤◌, ◌<◌, ◌≡◌, ap, ◌∙◌, List, [], ◌∷◌, ◌++◌, length, length-append, true, false, ◌==◌,
  number_eq, arith, some, All, All-append,
}
use common_network.Dht.Ids.{bucket_index}
use common_network.Dht.Table.{Contact, find_id, drop_id, others, keep_last, note_failure}
use common_network.Dht.Table.Contacts.{
  has_id, Distinct, Within, Within-drop_id, Within-others, Within-keep_last, has_id-Within,
  Distinct-Within, length-Within, All-Within, All-find_id, has_id-append, Distinct-append,
  has_id-drop_id_self, has_id-others_self, find_id-some, length-keep_last, note_failure-ids,
  Distinct-note_failure,
}

-- What `check_invariants` asserts of one bucket and its cache; that no cache holds an id twice; and
-- that only a full bucket has contacts set aside.
pub record IsBucket (own k idx : ℕ) (bucket cache : List Contact) : Type 0 where
  pub within : length bucket ≤ k
  pub cache_within : length cache ≤ k
  pub placed : All (λ c. bucket_index own c.id ≡ some idx) bucket
  pub cache_placed : All (λ c. bucket_index own c.id ≡ some idx) cache
  pub distinct : Distinct bucket
  pub cache_distinct : Distinct cache
  pub apart : All (λ c. has_id c.id bucket ≡ false) cache
  pub full : 0 < length cache → length bucket ≡ k

apart-append :
    (cs bucket : List Contact) (c : Contact)
    → All (λ x. has_id x.id bucket ≡ false) cs
    → has_id c.id cs ≡ false
    → All (λ x. has_id x.id (bucket ++ c ∷ []) ≡ false) cs
unfolding has_id
apart-append [] bucket c h n = tt
apart-append (x ∷ xs) bucket c h n =
    (ground (arith, has_id-append x.id bucket c), apart-append xs bucket c h.1 (ground arith))

apart-Within :
    {xs ys : List Contact} (cs : List Contact)
    → Within xs ys
    → All (λ x. has_id x.id ys ≡ false) cs
    → All (λ x. has_id x.id xs ≡ false) cs
apart-Within [] w h = tt
apart-Within (c ∷ cs) w h = (has_id-Within c.id w h.0, apart-Within cs w h.1)

module _ {own k idx : ℕ} {bucket cache : List Contact} (v : IsBucket own k idx bucket cache) where
  -- A member takes a new address, at the end.
  pub refresh-IsBucket :
      (c c' : Contact)
      → find_id c'.id bucket ≡ some c
      → c'.id ≡ c.id
      → IsBucket own k idx (drop_id c'.id bucket ++ c' ∷ []) cache
  refresh-IsBucket c c' e same =
      let (own_id, held, shorter) = find_id-some c'.id bucket c e in
      let gone = has_id-drop_id_self c'.id bucket v.distinct in
      let w = Within-drop_id c'.id bucket in
      let len = length-append (drop_id c'.id bucket) (c' ∷ []) in
      record {
        within = omega (arith, v.within);
        cache_within = v.cache_within;
        placed =
            All-append _ (drop_id c'.id bucket) (c' ∷ []) (All-Within _ w v.placed)
              (rw same (All-find_id _ c'.id bucket c e v.placed), tt);
        cache_placed = v.cache_placed;
        distinct = Distinct-append (drop_id c'.id bucket) c' (Distinct-Within w v.distinct) gone;
        cache_distinct = v.cache_distinct;
        apart = apart-refresh cache v.apart held w;
        full = λ h. omega (arith, v.full h);
      }
    where
      apart-refresh :
          (cs : List Contact)
          → All (λ x. has_id x.id bucket ≡ false) cs
          → has_id c'.id bucket ≡ true
          → Within (drop_id c'.id bucket) bucket
          → All (λ x. has_id x.id (drop_id c'.id bucket ++ c' ∷ []) ≡ false) cs
      apart-refresh [] h t w = tt
      apart-refresh (x ∷ xs) h t w = (
        ground (arith, has_id-append x.id (drop_id c'.id bucket) c', has_id-Within x.id w h.0),
        apart-refresh xs h.1 t w,
      )

  pub append-IsBucket :
      (c : Contact)
      → bucket_index own c.id ≡ some idx
      → has_id c.id bucket ≡ false
      → length bucket < k
      → IsBucket own k idx (bucket ++ c ∷ []) cache
  append-IsBucket c p fresh room = record {
    within = omega (arith, length-append bucket (c ∷ []));
    cache_within = v.cache_within;
    placed = All-append _ bucket (c ∷ []) v.placed (p, tt);
    cache_placed = v.cache_placed;
    distinct = Distinct-append bucket c v.distinct fresh;
    cache_distinct = v.cache_distinct;
    apart = nothing_aside cache v.full;
    full = λ h. absurd (omega (arith, v.full h));
  }
    where
      nothing_aside :
          (cs : List Contact)
          → (0 < length cs → length bucket ≡ k)
          → All (λ x. has_id x.id (bucket ++ c ∷ []) ≡ false) cs
      nothing_aside [] f = tt
      nothing_aside (x ∷ xs) f = absurd (omega (arith, f (omega arith)))

  pub set_aside-IsBucket :
      (c : Contact)
      → 0 < k
      → bucket_index own c.id ≡ some idx
      → has_id c.id bucket ≡ false
      → k ≤ length bucket
      → IsBucket own k idx bucket (keep_last k (others c.id cache ++ c ∷ []))
  set_aside-IsBucket c pos p fresh no_room =
      let w = Within-others c.id cache in
      let grown = others c.id cache ++ c ∷ [] in
      let kept = Within-keep_last k grown in
      record {
        within = v.within;
        cache_within = length-keep_last k grown pos;
        placed = v.placed;
        cache_placed =
            All-Within _ kept
              (All-append _ (others c.id cache) (c ∷ []) (All-Within _ w v.cache_placed) (p, tt));
        distinct = v.distinct;
        cache_distinct = Distinct-Within kept (
            Distinct-append (others c.id cache) c (Distinct-Within w v.cache_distinct)
              (has_id-others_self c.id cache));
        apart =
            All-Within _ kept
              (All-append _ (others c.id cache) (c ∷ []) (All-Within _ w v.apart) (fresh, tt));
        full = λ h. omega (arith, v.within);
      }

  pub forget-IsBucket : (i : ℕ) → IsBucket own k idx bucket (others i cache)
  forget-IsBucket i =
      let w = Within-others i cache in
      record {
        within = v.within;
        cache_within = omega (arith, v.cache_within, length-Within w);
        placed = v.placed;
        cache_placed = All-Within _ w v.cache_placed;
        distinct = v.distinct;
        cache_distinct = Distinct-Within w v.cache_distinct;
        apart = All-Within _ w v.apart;
        full = λ h. v.full (omega (arith, length-Within w));
      }

  -- With no contact set aside a bucket just shrinks.
  pub drop-IsBucket : (i : ℕ) → cache ≡ [] → IsBucket own k idx (drop_id i bucket) cache
  drop-IsBucket i e =
      let w = Within-drop_id i bucket in
      record {
        within = omega (arith, v.within, length-Within w);
        cache_within = v.cache_within;
        placed = All-Within _ w v.placed;
        cache_placed = v.cache_placed;
        distinct = Distinct-Within w v.distinct;
        cache_distinct = v.cache_distinct;
        apart = apart-Within cache w v.apart;
        full = λ h. absurd (omega (arith, ap (λ (l : List Contact). length l) e));
      }

pub split_last :
    (front : List Contact) (last : Contact)
    → Distinct (front ++ last ∷ [])
    → Distinct front × All (λ x. (last.id == x.id) ≡ false) front
unfolding has_id
split_last [] last d = (tt, tt)
split_last (x ∷ xs) last d =
    let (rest, other) = split_last xs last d.1 in
    (
      (ground (arith, has_id-append x.id xs last), rest),
      (ground (arith, has_id-append x.id xs last), other),
    )

pub All-split {ℓ} :
    (P : Contact → Type ℓ) (front : List Contact) (last : Contact)
    → All P (front ++ last ∷ [])
    → All P front × P last
All-split P [] last h = (tt, h.0)
All-split P (x ∷ xs) last h = let (rest, at_end) = All-split P xs last h.1 in ((h.0, rest), at_end)

-- A contact is dropped and the newest one set aside takes its place.
pub promote-IsBucket :
    {own k idx : ℕ} {bucket : List Contact} (i : ℕ) (c last : Contact) (front : List Contact)
    → find_id i bucket ≡ some c
    → IsBucket own k idx bucket (front ++ last ∷ [])
    → IsBucket own k idx (drop_id i bucket ++ last ∷ []) front
promote-IsBucket {bucket} i c last front e v =
    let w = Within-drop_id i bucket in
    let (own_id, held, shorter) = find_id-some i bucket c e in
    let (distinct, other) = split_last front last v.cache_distinct in
    let (placed, last_placed) = All-split _ front last v.cache_placed in
    let (apart, last_apart) = All-split _ front last v.apart in
    let len = length-append (drop_id i bucket) (last ∷ []) in
    let cache_len = length-append front (last ∷ []) in
    record {
      within = omega (arith, v.within);
      cache_within = omega (arith, v.cache_within);
      placed =
          All-append _ (drop_id i bucket) (last ∷ []) (All-Within _ w v.placed) (last_placed, tt);
      cache_placed = placed;
      distinct =
          Distinct-append (drop_id i bucket) last (Distinct-Within w v.distinct)
            (has_id-Within last.id w last_apart);
      cache_distinct = distinct;
      apart = still_apart front apart other w;
      full = λ h. omega (arith, v.full (omega arith));
    }
  where
    still_apart :
        (cs : List Contact)
        → All (λ x. has_id x.id bucket ≡ false) cs
        → All (λ x. (last.id == x.id) ≡ false) cs
        → Within (drop_id i bucket) bucket
        → All (λ x. has_id x.id (drop_id i bucket ++ last ∷ []) ≡ false) cs
    still_apart [] h o w = tt
    still_apart (x ∷ xs) h o w = (
      ground (arith, has_id-append x.id (drop_id i bucket) last, has_id-Within x.id w h.0),
      still_apart xs h.1 o.1 w,
    )

placed-note_failure :
    (own idx i : ℕ) (xs : List Contact)
    → All (λ c. bucket_index own c.id ≡ some idx) xs
    → All (λ c. bucket_index own c.id ≡ some idx) (note_failure i xs)
unfolding note_failure
placed-note_failure own idx i [] h = tt
placed-note_failure own idx i (x ∷ xs) h = ground (arith, placed-note_failure own idx i xs h.1)

-- A failure is counted on a member; ids and places stay.
pub noted-IsBucket :
    {own k idx : ℕ} {bucket cache : List Contact} (i : ℕ)
    → IsBucket own k idx bucket cache
    → IsBucket own k idx (note_failure i bucket) cache
noted-IsBucket {own} {k} {idx} {bucket} {cache} i v =
    let len = (note_failure-ids i 0 bucket).1 in
    record {
      within = omega (arith, v.within);
      cache_within = v.cache_within;
      placed = placed-note_failure own idx i bucket v.placed;
      cache_placed = v.cache_placed;
      distinct = Distinct-note_failure i bucket v.distinct;
      cache_distinct = v.cache_distinct;
      apart = apart-noted cache v.apart;
      full = λ h. omega (arith, v.full h);
    }
  where
    apart-noted :
        (cs : List Contact)
        → All (λ x. has_id x.id bucket ≡ false) cs
        → All (λ x. has_id x.id (note_failure i bucket) ≡ false) cs
    apart-noted [] h = tt
    apart-noted (x ∷ xs) h = ((note_failure-ids i x.id bucket).0 ∙ h.0, apart-noted xs h.1)
