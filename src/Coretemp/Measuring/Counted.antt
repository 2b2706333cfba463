-- ===== src/Coretemp/Measuring/Counted.antt =====
-- What _coretemp_read (patches/coretemp/linux-coretemp.c) hands over after an update of the event set.
use scorep_amd.Common.{
  ℕ, zero, suc, ◌+◌, ◌^◌, ◌≤◌, ◌<◌, ◌≡◌, ◌≢◌, refl, ap, sym, ◌∙◌, Option, List, [], ◌∷◌, arith,
  length, set, get_or, length-set, get_or-set_self, get_or-set_ne,
}
use native.Mathlib.Decide.{ℕ_discrete}
use mathlib.Core.Path.{subst}
use scorep_amd.Common.Run.{ok}
use scorep_amd.Common.Strings.{Text}
use scorep_amd.Common.Papi.{papi_ok}
use scorep_amd.Coretemp.{NativeEvent}
use scorep_amd.Coretemp.Setup.{cleared}
use scorep_amd.Coretemp.Values.{get_event_value}
use scorep_amd.Coretemp.Measuring.{Control, fetch, update_control_state, count_loop, read_counts}
use scorep_amd.Coretemp.Measuring.Opened.{IsOpened, open_all-IsOpened, open_all-others}
use scorep_amd.Coretemp.Measuring.Updated.{
  AllBelow, IsNumbered, Opens, element-get_or, store_at-set, open_all, write_all, update_loop-all,
  get_or-write_all, write_all-whole, length-open_all, length-write_all,
}

fetch-get_or : (xs : List ℕ) (i : ℕ) → i < length xs → fetch xs i ≡ ok (get_or xs i 0)
unfolding fetch
fetch-get_or [] i h = absurd (omega arith)
fetch-get_or (x ∷ xs) zero h = refl
fetch-get_or (x ∷ xs) (suc i) h = fetch-get_or xs i (omega arith)

get_or-AllBelow : (n k : ℕ) (cs : List ℕ) → AllBelow n cs → k < length cs → get_or cs k 0 < n
get_or-AllBelow n k [] b h = absurd (omega arith)
get_or-AllBelow n zero (c ∷ cs) (lt, b) h = lt
get_or-AllBelow n (suc k) (c ∷ cs) (lt, b) h = get_or-AllBelow n k cs b (omega arith)

i_zero : (i : ℕ) → i + 0 ≡ i
i_zero i = omega arith

zero_i : (i : ℕ) → 0 + i ≡ i
zero_i i = omega arith

i_suc : (i k : ℕ) → i + suc k ≡ i + 1 + k
i_suc i k = omega arith

module _ (max_str_len : ℕ) (pread : ℕ → Text) (table : List NativeEvent) where
  -- The value of the event with the code `j`.
  abbrev pub current : ℕ → ℕ
  current j = get_event_value max_str_len pread (get_or table j cleared)

  -- What the rounds from `i` on make of the counts: those of active events are current, and the others
  -- are as before.
  pub record IsCounted (active : List ℕ) (i n : ℕ) (counts counts' : List ℕ) : Type 0 where
    pub same_length : length counts' ≡ length counts
    pub active_current :
        (k : ℕ)
        → k < n
        → get_or counts' (get_or active (i + k) 0) 0 ≡ current (get_or active (i + k) 0)
    pub current_stays : (j : ℕ) → get_or counts j 0 ≡ current j → get_or counts' j 0 ≡ current j
    pub others_stay :
        (j : ℕ)
        → ((k : ℕ) → k < n → get_or active (i + k) 0 ≢ j)
        → get_or counts' j 0 ≡ get_or counts j 0

  set-current :
      (counts : List ℕ) (idx j : ℕ)
      → idx < length counts
      → get_or counts j 0 ≡ current j
      → get_or (set counts idx (current idx)) j 0 ≡ current j
  set-current counts idx j lt h = elim (ℕ_discrete idx j) [
    | yes e ↦
        subst (λ m. get_or (set counts idx (current idx)) m 0 ≡ current m) e
          (get_or-set_self counts idx (current idx) 0 lt)
    | no ne ↦ get_or-set_ne counts idx j (current idx) 0 ne ∙ h
  ]

  IsCounted-active :
      (active : List ℕ) (i n idx k : ℕ) (counts counts' : List ℕ)
      → idx ≡ get_or active i 0
      → idx < length counts
      → IsCounted active (i + 1) n (set counts idx (current idx)) counts'
      → k < suc n
      → get_or counts' (get_or active (i + k) 0) 0 ≡ current (get_or active (i + k) 0)
  IsCounted-active active i n idx zero counts counts' e lt r h =
      subst (λ m. get_or counts' m 0 ≡ current m) (e ∙ ap (λ m. get_or active m 0) (sym (i_zero i)))
        (r.current_stays idx (get_or-set_self counts idx (current idx) 0 lt))
  IsCounted-active active i n idx (suc k) counts counts' e lt r h =
      subst (λ m. get_or counts' (get_or active m 0) 0 ≡ current (get_or active m 0))
        (sym (i_suc i k)) (r.active_current k (omega arith))

  IsCounted-round :
      (active : List ℕ) (i n idx : ℕ) (counts counts' : List ℕ)
      → idx ≡ get_or active i 0
      → idx < length counts
      → IsCounted active (i + 1) n (set counts idx (current idx)) counts'
      → IsCounted active i (suc n) counts counts'
  IsCounted-round active i n idx counts counts' e lt r = record {
    same_length = r.same_length ∙ length-set counts idx (current idx);
    active_current = λ k h. IsCounted-active active i n idx k counts counts' e lt r h;
    current_stays = λ j h. r.current_stays j (set-current counts idx j lt h);
    others_stay = λ j h.
        r.others_stay j
          (λ k hk. subst (λ m. get_or active m 0 ≢ j) (i_suc i k) (h (suc k) (omega arith)))
        ∙ get_or-set_ne counts idx j (current idx) 0
            (λ x. h 0 (omega arith) (ap (λ m. get_or active m 0) (i_zero i) ∙ sym e ∙ x));
  }

  count_loop-IsCounted :
      (active : List ℕ) (n i : ℕ) (counts : List ℕ)
      → i + n ≤ length active
      → ((k : ℕ) → k < n → get_or active (i + k) 0 < length table)
      → length table ≤ length counts
      → (counts' : List ℕ) × (count_loop max_str_len pread table n i active counts ≡ ok counts')
        × IsCounted active i n counts counts'
  unfolding count_loop
  count_loop-IsCounted active zero i counts r b l = (
    counts,
    refl,
    record {
      same_length = refl;
      active_current = λ k h. absurd (omega arith);
      current_stays = λ j h. h;
      others_stay = λ j h. refl;
    },
  )
  count_loop-IsCounted active (suc n) i counts r b l =
      let idx = get_or active i 0 in
      let lt : idx < length table =
        subst (λ m. get_or active m 0 < length table) (i_zero i) (b 0 (omega arith)) in
      let counts1 = set counts idx (current idx) in
      let rest =
        count_loop-IsCounted active n (i + 1) counts1 (omega arith)
          (λ k h.
            subst (λ m. get_or active m 0 < length table) (i_suc i k) (b (suc k) (omega arith)))
          (omega (arith, length-set counts idx (current idx))) in
      (
        rest.0,
        rw
            (
              fetch-get_or active i (omega arith),
              element-get_or table idx lt,
              store_at-set counts idx (current idx) (omega arith),
            )
            rest.1,
        IsCounted-round active i n idx counts rest.0 refl (omega arith) rest.2,
      )

-- An event set of events of the table is updated, where all files can be opened, and then read: both
-- succeed without undefined behaviour. Each event's position is its code. The element of the table at
-- that position has the descriptor that it had or, where it had none, the one that opening its path
-- gave, and is otherwise as before; the element of the counts at that position holds the value that
-- the bytes behind this descriptor give for the element when they are read. The elements and counts of
-- events that are not in the set are as before. The table has no more elements than the counts, and
-- the set no more than `active_idx`, and the selectors of the table are 1, 2 and so on.
pub update-read-current :
    (open_file : Text → Option ℕ) (max_str_len : ℕ) (pread : ℕ → Text) (cs positions : List ℕ)
    (table : List NativeEvent) (ctl : Control)
    → Opens open_file
    → AllBelow (length table) cs
    → IsNumbered 0 table
    → length table ≤ length ctl.counts
    → length table ≤ 2 ^ 31
    → length cs ≤ length ctl.active_idx
    → length positions ≡ length cs
    → (table' : List NativeEvent) × (ctl' : Control) × (ctl'' : Control) × (update_control_state
          open_file cs positions table ctl
        ≡ ok (papi_ok, cs, table', ctl'))
      × (read_counts max_str_len pread table' ctl' ≡ ok (papi_ok, ctl''))
      × ((k : ℕ)
          → k < length cs
          → IsOpened open_file
              (get_or table (get_or cs k 0) cleared)
              (get_or table' (get_or cs k 0) cleared)
            × (get_or ctl''.counts (get_or cs k 0) 0
                ≡ current max_str_len pread table' (get_or cs k 0)))
      × ((j : ℕ)
          → ((k : ℕ) → k < length cs → get_or cs k 0 ≢ j)
          → (get_or table' j cleared ≡ get_or table j cleared)
            × (get_or ctl''.counts j 0 ≡ get_or ctl.counts j 0))
unfolding update_control_state read_counts
update-read-current open_file max_str_len pread cs positions table ctl o b n l s r p =
    let table' = open_all open_file cs table in
    let active = write_all cs 0 ctl.active_idx in
    let ctl' = record ctl { active_count = length cs; active_idx = active } in
    let room : 0 + length cs ≤ length ctl.active_idx = omega arith in
    let at : (k : ℕ) → k < length cs → get_or active (0 + k) 0 ≡ get_or cs k 0 =
      λ k h. get_or-write_all cs 0 k ctl.active_idx h room in
    let counted =
      count_loop-IsCounted max_str_len pread table' active (length cs) 0 ctl.counts
        (omega (arith, length-write_all cs 0 ctl.active_idx))
        (λ k h.
          subst (λ m. m < length table') (sym (at k h))
            (subst (λ m. get_or cs k 0 < m) (sym (length-open_all open_file cs table))
              (get_or-AllBelow (length table) k cs b h)))
        (omega (arith, length-open_all open_file cs table)) in
    (
      table',
      ctl',
      record ctl' { counts = counted.0 },
      rw
          (
            update_loop-all open_file cs 0
                record { table = table; active_idx = ctl.active_idx; positions = positions } o b s n
                room,
            write_all-whole cs positions p,
          )
          refl,
      rw counted.1 refl,
      (λ k h. (
        open_all-IsOpened open_file o cs table k b h,
        subst (λ m. get_or counted.0 m 0 ≡ current max_str_len pread table' m) (at k h)
            (counted.2.active_current k h),
      )),
      (λ j h. (
        open_all-others open_file cs table j h,
        counted.2.others_stay j (λ k hk e. h k hk (sym (at k hk) ∙ e)),
      )),
    )
