-- ===== src/Coretemp/Measuring/Updated.antt =====
-- What _coretemp_update_control_state (patches/coretemp/linux-coretemp.c) leaves where all files can be
-- opened.
use scorep_amd.Common.{
  ℕ, zero, suc, ◌+◌, ◌-◌, ◌%◌, ◌^◌, ◌≤◌, ◌<◌, ◌≡◌, refl, ap, sym, ◌∙◌, Option, none, some, List, [],
  ◌∷◌, ◌++◌, arith, length, length-append, set-append, set, get_or, lt→ltb, length-set,
  get_or-set_self, get_or-set_ne,
}
use mathlib.Core.Path.{subst}
use mathlib.Core.List.{append_assoc}
use scorep_amd.Common.Run.{ok}
use scorep_amd.Common.Strings.{Text}
use scorep_amd.Common.Papi.{papi_ok}
use scorep_amd.Coretemp.{NativeEvent}
use scorep_amd.Coretemp.Setup.{cleared}
use scorep_amd.Coretemp.Measuring.{
  element, store_at, ensure_open, Update, activate, then_rest, update_loop,
}

-- The event with its file open.
unfoldable pub with_fd : (Text → Option ℕ) → NativeEvent → NativeEvent
with_fd open_file ev = elim ev.fd [
  | some fd ↦ ev
  | none ↦ elim (open_file ev.path) [ none ↦ ev | some fd ↦ record ev { fd = some fd } ]
]

-- The numbers stand in the array from `i` on.
unfoldable pub write_all : List ℕ → ℕ → List ℕ → List ℕ
write_all [] i xs = xs
write_all (c ∷ cs) i xs = write_all cs (i + 1) (set xs i c)

unfoldable pub open_all : (Text → Option ℕ) → List ℕ → List NativeEvent → List NativeEvent
unfolding with_fd
open_all open_file [] table = table
open_all open_file (c ∷ cs) table =
    open_all open_file cs (set table c (with_fd open_file (get_or table c cleared)))

abbrev pub AllBelow : ℕ → List ℕ → Type 0
AllBelow n [] = Unit
AllBelow n (c ∷ cs) = (c < n) × AllBelow n cs

-- The selectors of a table that starts with the element `i`.
abbrev pub IsNumbered : ℕ → List NativeEvent → Type 0
IsNumbered i [] = Unit
IsNumbered i (ev ∷ table) = (ev.selector ≡ i + 1) × IsNumbered (i + 1) table

abbrev pub Opens : (Text → Option ℕ) → Type 0
Opens open_file = (path : Text) → (fd : ℕ) × (open_file path ≡ some fd)

pub element-get_or :
    (table : List NativeEvent) (i : ℕ)
    → i < length table
    → element table i ≡ ok (get_or table i cleared)
unfolding element
element-get_or [] i h = absurd (omega arith)
element-get_or (ev ∷ table) zero h = refl
element-get_or (ev ∷ table) (suc i) h = element-get_or table i (omega arith)

pub store_at-set {ℓ} :
    {A : Type ℓ} (xs : List A) (i : ℕ) (x : A) → i < length xs → store_at xs i x ≡ ok (set xs i x)
unfolding store_at
store_at-set xs i x h = rw (lt→ltb i (length xs) h) refl

ensure_open-with_fd :
    (open_file : Text → Option ℕ) (ev : NativeEvent)
    → Opens open_file
    → ensure_open open_file ev ≡ some (with_fd open_file ev)
unfolding ensure_open with_fd
ensure_open-with_fd open_file ev h = ground (arith, (h ev.path).1)

with_fd-selector :
    (open_file : Text → Option ℕ) (ev : NativeEvent) → (with_fd open_file ev).selector ≡ ev.selector
unfolding with_fd
with_fd-selector open_file ev = ground arith

get_or-IsNumbered :
    (table : List NativeEvent) (i k : ℕ)
    → IsNumbered i table
    → k < length table
    → (get_or table k cleared).selector ≡ i + k + 1
get_or-IsNumbered [] i k n h = absurd (omega arith)
get_or-IsNumbered (ev ∷ table) i zero (e, n) h = omega arith
get_or-IsNumbered (ev ∷ table) i (suc k) (e, n) h =
    omega (arith, get_or-IsNumbered table (i + 1) k n (omega arith))

set-IsNumbered :
    (table : List NativeEvent) (i k : ℕ) (ev : NativeEvent)
    → IsNumbered i table
    → ev.selector ≡ i + k + 1
    → IsNumbered i (set table k ev)
set-IsNumbered [] i k ev n e = tt
set-IsNumbered (x ∷ table) i zero ev (f, n) e = (omega arith, n)
set-IsNumbered (x ∷ table) i (suc k) ev (f, n) e =
    (f, set-IsNumbered table (i + 1) k ev n (omega arith))

-- One round: the code is stored, and is the position.
activate-set :
    (i index : ℕ) (u : Update) (ev : NativeEvent)
    → i < length u.active_idx
    → index < 2 ^ 31
    → ev.selector ≡ index + 1
    → activate i index u (some ev)
      ≡ ok (
        papi_ok,
        record {
          table = set u.table index ev;
          active_idx = set u.active_idx i index;
          positions = set u.positions i index;
        },
      )
unfolding activate
activate-set i index u ev h b e = rw (store_at-set u.active_idx i index h) (
    let p : (ev.selector + (2 ^ 32 - 1)) % 2 ^ 32 ≡ index = omega arith in
    ap
      (λ n. ok (
        papi_ok,
        record {
          table = set u.table index ev;
          active_idx = set u.active_idx i index;
          positions = set u.positions i n;
        },
      ))
      p)

pub update_loop-all :
    (open_file : Text → Option ℕ) (cs : List ℕ) (i : ℕ) (u : Update)
    → Opens open_file
    → AllBelow (length u.table) cs
    → length u.table ≤ 2 ^ 31
    → IsNumbered 0 u.table
    → i + length cs ≤ length u.active_idx
    → update_loop open_file cs i u
      ≡ ok (
        papi_ok,
        record {
          table = open_all open_file cs u.table;
          active_idx = write_all cs i u.active_idx;
          positions = write_all cs i u.positions;
        },
      )
unfolding update_loop open_all write_all then_rest
update_loop-all open_file [] i u o b s n r = refl
update_loop-all open_file (c ∷ cs) i u o (lt, b) s n r =
    let ev = get_or u.table c cleared in
    let sel : (with_fd open_file ev).selector ≡ c + 1 =
      with_fd-selector open_file ev ∙ get_or-IsNumbered u.table 0 c n lt ∙ omega arith in
    let table = set u.table c (with_fd open_file ev) in
    let len : length table ≡ length u.table = length-set u.table c (with_fd open_file ev) in
    rw
      (
        element-get_or u.table c lt,
        ensure_open-with_fd open_file ev o,
        activate-set i c u (with_fd open_file ev) (omega arith) (omega arith) sel,
      )
      (update_loop-all open_file cs (i + 1)
        record { table = table; active_idx = set u.active_idx i c; positions = set u.positions i c }
        o (subst (λ n. AllBelow n cs) (sym len) b) (omega arith)
        (set-IsNumbered u.table 0 c (with_fd open_file ev) n (omega arith))
        (omega (arith, length-set u.active_idx i c)))

pub length-write_all : (cs : List ℕ) (i : ℕ) (xs : List ℕ) → length (write_all cs i xs) ≡ length xs
unfolding write_all
length-write_all [] i xs = refl
length-write_all (c ∷ cs) i xs = length-write_all cs (i + 1) (set xs i c) ∙ length-set xs i c

add-zero_lem : (i : ℕ) → i + 0 ≡ i
add-zero_lem i = omega arith

add-suc_lem : (i k : ℕ) → i + suc k ≡ i + 1 + k
add-suc_lem i k = omega arith

length-snoc : (pre : List ℕ) (c : ℕ) → length pre + 1 ≡ length (pre ++ c ∷ [])
length-snoc pre c = omega (arith, length-append pre (c ∷ []))

pub get_or-write_all_before :
    (cs : List ℕ) (i j : ℕ) (xs : List ℕ) → j < i → get_or (write_all cs i xs) j 0 ≡ get_or xs j 0
unfolding write_all
get_or-write_all_before [] i j xs h = refl
get_or-write_all_before (c ∷ cs) i j xs h =
    get_or-write_all_before cs (i + 1) j (set xs i c) (omega arith)
    ∙ get_or-set_ne xs i j c 0 (λ e. absurd (omega arith))

pub get_or-write_all :
    (cs : List ℕ) (i k : ℕ) (xs : List ℕ)
    → k < length cs
    → i + length cs ≤ length xs
    → get_or (write_all cs i xs) (i + k) 0 ≡ get_or cs k 0
unfolding write_all
get_or-write_all [] i k xs h r = absurd (omega arith)
get_or-write_all (c ∷ cs) i zero xs h r =
    ap (λ j. get_or (write_all cs (i + 1) (set xs i c)) j 0) (add-zero_lem i)
    ∙ get_or-write_all_before cs (i + 1) i (set xs i c) (omega arith)
    ∙ get_or-set_self xs i c 0 (omega arith)
get_or-write_all (c ∷ cs) i (suc k) xs h r =
    ap (λ j. get_or (write_all cs (i + 1) (set xs i c)) j 0) (add-suc_lem i k)
    ∙ get_or-write_all cs (i + 1) k (set xs i c) (omega arith) (omega (arith, length-set xs i c))

write_all-append :
    (cs pre rest : List ℕ)
    → length rest ≡ length cs
    → write_all cs (length pre) (pre ++ rest) ≡ pre ++ cs
unfolding write_all
write_all-append [] pre [] h = refl
write_all-append [] pre (x ∷ rest) h = absurd (omega arith)
write_all-append (c ∷ cs) pre [] h = absurd (omega arith)
write_all-append (c ∷ cs) pre (x ∷ rest) h =
    ap (write_all cs (length pre + 1)) (set-append pre x c rest)
    ∙ ap (λ n. write_all cs n ((pre ++ c ∷ []) ++ rest)) (length-snoc pre c)
    ∙ write_all-append cs (pre ++ c ∷ []) rest (omega arith)
    ∙ append_assoc pre (c ∷ []) cs

-- An array of as many elements is overwritten.
pub write_all-whole : (cs xs : List ℕ) → length xs ≡ length cs → write_all cs 0 xs ≡ cs
write_all-whole cs xs h = write_all-append cs [] xs h

pub length-open_all :
    (open_file : Text → Option ℕ) (cs : List ℕ) (table : List NativeEvent)
    → length (open_all open_file cs table) ≡ length table
unfolding open_all
length-open_all open_file [] table = refl
length-open_all open_file (c ∷ cs) table =
    let ev = with_fd open_file (get_or table c cleared) in
    length-open_all open_file cs (set table c ev) ∙ length-set table c ev
