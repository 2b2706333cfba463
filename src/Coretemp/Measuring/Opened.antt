-- ===== src/Coretemp/Measuring/Opened.antt =====
-- The files that _coretemp_update_control_state (patches/coretemp/linux-coretemp.c) has opened.
use scorep_amd.Common.{
  ℕ, zero, suc, ◌<◌, ◌≡◌, ◌≢◌, ◌⊎◌, inl, inr, refl, ap, sym, ◌∙◌, Option, none, some, List, [], ◌∷◌,
  arith, length, set, get_or, length-set, get_or-set_self, get_or-set_ne, Option-cases,
}
use native.Mathlib.Decide.{ℕ_discrete}
use mathlib.Core.Path.{subst}
use scorep_amd.Common.Strings.{Text}
use scorep_amd.Coretemp.{NativeEvent}
use scorep_amd.Coretemp.Setup.{cleared}
use scorep_amd.Coretemp.Measuring.Updated.{with_fd, open_all, AllBelow, Opens}

-- What an element is after an update with its event: its descriptor is the one that it had or, where
-- it had none, one of the file at its path, and the rest of it is as before.
pub record IsOpened (open_file : Text → Option ℕ) (ev ev' : NativeEvent) : Type 0 where
  pub fd : ℕ
  pub origin : (ev.fd ≡ some fd) ⊎ ((ev.fd ≡ none) × (open_file ev.path ≡ some fd))
  pub opened : ev' ≡ record ev { fd = some fd }

module _ (open_file : Text → Option ℕ) (o : Opens open_file) where
  with_fd-new :
      (ev : NativeEvent) (fd : ℕ)
      → ev.fd ≡ none
      → open_file ev.path ≡ some fd
      → with_fd open_file ev ≡ record ev { fd = some fd }
  unfolding with_fd
  with_fd-new ev fd e h = ground arith

  with_fd-open : (ev : NativeEvent) (fd : ℕ) → ev.fd ≡ some fd → with_fd open_file ev ≡ ev
  unfolding with_fd
  with_fd-open ev fd e = rw e refl

  with_fd-IsOpened : (ev : NativeEvent) → IsOpened open_file ev (with_fd open_file ev)
  with_fd-IsOpened ev = elim (Option-cases ev.fd) [
    | inl e ↦ record {
      fd = (o ev.path).0;
      origin = inr (e, (o ev.path).1);
      opened = with_fd-new ev (o ev.path).0 e (o ev.path).1;
    }
    | inr there ↦ record {
      fd = there.0;
      origin = inl there.1;
      opened = with_fd-open ev there.0 there.1 ∙ ap (λ fd. record ev { fd = fd }) there.1;
    }
  ]

  -- An element that is open is not opened again.
  with_fd-stays :
      (ev ev' : NativeEvent)
      → IsOpened open_file ev ev'
      → IsOpened open_file ev (with_fd open_file ev')
  with_fd-stays ev ev' h =
      subst (IsOpened open_file ev) (sym (with_fd-open ev' h.fd (ap (λ x. x.fd) h.opened))) h

  open_all-stays :
      (cs : List ℕ) (table : List NativeEvent) (j : ℕ) (ev : NativeEvent)
      → AllBelow (length table) cs
      → IsOpened open_file ev (get_or table j cleared)
      → IsOpened open_file ev (get_or (open_all open_file cs table) j cleared)
  unfolding open_all
  open_all-stays [] table j ev b h = h
  open_all-stays (c ∷ cs) table j ev (lt, b) h =
      let new = with_fd open_file (get_or table c cleared) in
      open_all-stays cs (set table c new) j ev
        (subst (λ n. AllBelow n cs) (sym (length-set table c new)) b)
        (elim (ℕ_discrete c j) [
          | yes e ↦
              subst (λ k. IsOpened open_file ev (get_or (set table c new) k cleared)) e
                (subst (IsOpened open_file ev) (sym (get_or-set_self table c new cleared lt)) (
                  with_fd-stays ev (get_or table c cleared)
                    (subst (λ k. IsOpened open_file ev (get_or table k cleared)) (sym e) h)))
          | no ne ↦ subst (IsOpened open_file ev) (sym (get_or-set_ne table c j new cleared ne)) h
        ])

  open_all-first :
      (c : ℕ) (cs : List ℕ) (table : List NativeEvent)
      → c < length table
      → AllBelow (length table) cs
      → IsOpened open_file
          (get_or table c cleared)
          (get_or (open_all open_file (c ∷ cs) table) c cleared)
  unfolding open_all
  open_all-first c cs table lt b =
      let ev = get_or table c cleared in
      let new = with_fd open_file ev in
      open_all-stays cs (set table c new) c ev
        (subst (λ n. AllBelow n cs) (sym (length-set table c new)) b)
        (subst (IsOpened open_file ev) (sym (get_or-set_self table c new cleared lt))
          (with_fd-IsOpened ev))

  -- The elements of the codes are open.
  pub open_all-IsOpened :
      (cs : List ℕ) (table : List NativeEvent) (k : ℕ)
      → AllBelow (length table) cs
      → k < length cs
      → IsOpened open_file
          (get_or table (get_or cs k 0) cleared)
          (get_or (open_all open_file cs table) (get_or cs k 0) cleared)
  unfolding open_all
  open_all-IsOpened [] table k b h = absurd (omega arith)
  open_all-IsOpened (c ∷ cs) table zero (lt, b) h = open_all-first c cs table lt b
  open_all-IsOpened (c ∷ cs) table (suc k) (lt, b) h =
      let new = with_fd open_file (get_or table c cleared) in
      let d = get_or cs k 0 in
      elim (ℕ_discrete c d) [
        | yes e ↦
            subst
              (λ m.
                IsOpened open_file (get_or table m cleared)
                  (get_or (open_all open_file (c ∷ cs) table) m cleared))
              e (open_all-first c cs table lt b)
        | no ne ↦
            subst
              (λ ev.
                IsOpened open_file ev (get_or (open_all open_file cs (set table c new)) d cleared))
              (get_or-set_ne table c d new cleared ne)
              (open_all-IsOpened cs (set table c new) k
                (subst (λ n. AllBelow n cs) (sym (length-set table c new)) b) (omega arith))
      ]

-- The other elements are as before.
pub open_all-others :
    (open_file : Text → Option ℕ) (cs : List ℕ) (table : List NativeEvent) (j : ℕ)
    → ((k : ℕ) → k < length cs → get_or cs k 0 ≢ j)
    → get_or (open_all open_file cs table) j cleared ≡ get_or table j cleared
unfolding open_all
open_all-others open_file [] table j ne = refl
open_all-others open_file (c ∷ cs) table j ne =
    let new = with_fd open_file (get_or table c cleared) in
    open_all-others open_file cs (set table c new) j (λ k h. ne (suc k) (omega arith))
    ∙ get_or-set_ne table c j new cleared (ne 0 (omega arith))
