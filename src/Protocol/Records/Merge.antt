-- ===== src/Protocol/Records/Merge.antt =====
-- The record that a user id has after a partial update of the policies.
use freezeit_cos.Base.{
  ℕ, List, [], ◌∷◌, ◌++◌, map, keep, any, find, Option, none, some, unwrap_or, Bool, true, not,
  ◌&&◌, ◌==◌, if◌then◌else◌, lookup, insert, lookup-insert, Map, nat_key, ◌≡◌, ◌≢◌, refl, ap, ◌∙◌,
  arith, beq_iff, or_option, is_some,
}
use freezeit_cos.Control.Settings.{ManagerAppConfigRecord}
use freezeit_cos.Protocol.Records.{u32_max, requested_by_uid, merge_app_config_records}

-- The first record of the user id.
abbrev pub record_of : ℕ → List ManagerAppConfigRecord → Option ManagerAppConfigRecord
record_of uid = find λ (r : ManagerAppConfigRecord). r.uid == uid

-- The last record of the user id, or the one before the list.
abbrev pub last_of :
    ℕ → List ManagerAppConfigRecord → Option ManagerAppConfigRecord → Option ManagerAppConfigRecord
last_of uid [] o = o
last_of uid (r ∷ records) o = last_of uid records (if r.uid == uid then some r else o)

lookup-requested :
    (uid : ℕ) (records : List ManagerAppConfigRecord) (m : Map ℕ ManagerAppConfigRecord)
    → uid ≢ u32_max
    → lookup uid (requested_by_uid records m) ≡ last_of uid records (lookup uid m)
unfolding requested_by_uid
lookup-requested uid [] m n = refl
lookup-requested uid (r ∷ records) m n =
    lookup-requested uid records (if not (r.uid == u32_max) then insert r.uid r m else m) n
    ∙ ap (last_of uid records) (ground (arith, lookup-insert r.uid uid r m, beq_iff r.uid uid))

-- What a merge makes of the earlier record of a user id.
abbrev pub replaced :
    Option ManagerAppConfigRecord → Option ManagerAppConfigRecord → Option ManagerAppConfigRecord
replaced none last = none
replaced (some r) last = some (unwrap_or last r)

abbrev has_uid : ℕ → Option ManagerAppConfigRecord → Bool
has_uid uid none = true
has_uid uid (some r) = r.uid == uid

-- Every record stands under its own user id.
requested-uid :
    (records : List ManagerAppConfigRecord) (m : Map ℕ ManagerAppConfigRecord)
    → ((u : ℕ) → has_uid u (lookup u m) ≡ true)
    → (u : ℕ) → has_uid u (lookup u (requested_by_uid records m)) ≡ true
unfolding requested_by_uid
requested-uid [] m h u = h u
requested-uid (r ∷ records) m h u =
    requested-uid records (if not (r.uid == u32_max) then insert r.uid r m else m)
      (λ v. ground (arith, lookup-insert r.uid v r m, beq_iff r.uid v, h v)) u

record_of-append :
    (uid : ℕ) (xs ys : List ManagerAppConfigRecord)
    → record_of uid (xs ++ ys) ≡ or_option (record_of uid xs) (record_of uid ys)
record_of-append uid [] ys = refl
record_of-append uid (r ∷ xs) ys = ground (arith, record_of-append uid xs ys)

record_of-keep :
    (uid : ℕ) (p : ManagerAppConfigRecord → Bool) (b : Bool) (xs : List ManagerAppConfigRecord)
    → ((r : ManagerAppConfigRecord) → r.uid ≡ uid → p r ≡ b)
    → record_of uid (keep p xs) ≡ (if b then record_of uid xs else none)
record_of-keep uid p b [] h = ground arith
record_of-keep uid p b (r ∷ xs) h = ground (arith, record_of-keep uid p b xs h, h r)

-- The list holds a record of the user id.
any-record_of :
    (uid : ℕ) (xs : List ManagerAppConfigRecord)
    → any (λ (p : ManagerAppConfigRecord). p.uid == uid) xs ≡ is_some (record_of uid xs)
any-record_of uid [] = refl
any-record_of uid (r ∷ xs) = ground (arith, any-record_of uid xs)

-- Each record is replaced by one of the same user id, or by itself.
abbrev replace_by : Map ℕ ManagerAppConfigRecord → ManagerAppConfigRecord → ManagerAppConfigRecord
replace_by m r = unwrap_or (lookup r.uid m) r

unwrap_uid :
    (uid : ℕ) (o : Option ManagerAppConfigRecord) (r : ManagerAppConfigRecord)
    → has_uid uid o ≡ true
    → r.uid ≡ uid
    → (unwrap_or o r).uid ≡ uid
unwrap_uid uid none r h e = e
unwrap_uid uid (some s) r h e = ground arith

record_of-map :
    (uid : ℕ) (m : Map ℕ ManagerAppConfigRecord) (xs : List ManagerAppConfigRecord)
    → ((u : ℕ) → has_uid u (lookup u m) ≡ true)
    → record_of uid (map (replace_by m) xs) ≡ replaced (record_of uid xs) (lookup uid m)
record_of-map uid m [] h = refl
record_of-map uid m (r ∷ xs) h =
    ground (arith, record_of-map uid m xs h, unwrap_uid r.uid (lookup r.uid m) r (h r.uid) refl)

merged_record_of :
    (before last first : Option ManagerAppConfigRecord)
    → or_option (replaced before last) (if not (is_some before) then first else none)
      ≡ (if is_some before then replaced before last else first)
merged_record_of none last first = refl
merged_record_of (some r) last first = refl

-- After a merge a user id that had a record has the last one requested for it, or the one it had;
-- one that had none has the first one requested. The placeholder is not a user id.
pub merge_app_config_records_lem :
    (uid : ℕ) (previous requested : List ManagerAppConfigRecord)
    → uid ≢ u32_max
    → record_of uid (merge_app_config_records previous requested) ≡ (
        let before = record_of uid previous in
        if is_some before
        then replaced before (last_of uid requested none)
        else record_of uid requested)
unfolding merge_app_config_records lookup
merge_app_config_records_lem uid previous requested n =
    let m = requested_by_uid requested [] in
    record_of-append uid (map (replace_by m) previous) (
      keep
        (λ (r : ManagerAppConfigRecord).
          not (r.uid == u32_max)
          && not (any (λ (p : ManagerAppConfigRecord). p.uid == r.uid) previous))
        requested)
    ∙ rw
        (
          record_of-map uid m previous (requested-uid requested [] λ u. refl),
          lookup-requested uid requested [] n,
          record_of-keep uid
              (λ (r : ManagerAppConfigRecord).
                not (r.uid == u32_max)
                && not (any (λ (p : ManagerAppConfigRecord). p.uid == r.uid) previous))
              (not (is_some (record_of uid previous))) requested
              (λ r e.
                ground (
                  arith,
                  any-record_of r.uid previous,
                  ap (λ u. is_some (record_of u previous)) e,
                )),
        )
        (merged_record_of (record_of uid previous) (last_of uid requested none)
          (record_of uid requested))
