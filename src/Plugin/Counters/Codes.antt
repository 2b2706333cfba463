-- ===== src/Plugin/Counters/Codes.antt =====
-- The codes that get_event_info (plugins/scorep-coretemp-plugin/apapi.c) registers.
use scorep_amd.Common.{
  ℕ, suc, ◌+◌, ◌≤◌, ◌<◌, ◌≡◌, refl, ◌∙◌, ap, Bool, true, Option, none, some, List, [], ◌∷◌, ◌++◌,
  arith, if◌then◌else◌, lt→ltb, le→ltb, length, set, drop, length-append, set-append,
}
use mathlib.Core.List.{append_assoc}
use scorep_amd.Common.Run.{Run, ok, fault, ◌>>=◌, Returns, out_of_bounds}
use scorep_amd.Plugin.{Globals}
use scorep_amd.Common.Strings.{Text}
use scorep_amd.Plugin.Counters.{Calls, get_event_info, register_code, metric_name}

-- Calls for one name after another.
pub get_event_infos : Calls → Bool → List Text → Globals → Run (Globals × List (Option Text))
get_event_infos calls memory [] g = ok (g, [])
get_event_infos calls memory (name ∷ names) g = do
  r ← get_event_info calls memory name g
  rest ← get_event_infos calls memory names r.0
  ok (rest.0, r.1 ∷ rest.1)

-- PAPI knows the names by these codes, and the events are available.
abbrev pub Known : Calls → List Text → List ℕ → Type 0
Known calls [] [] = Unit
Known calls [] (code ∷ codes) = ⊥
Known calls (name ∷ names) [] = ⊥
Known calls (name ∷ names) (code ∷ codes) =
    (calls.event_name_to_code name ≡ some code)
    × (calls.query_event code ≡ true)
    × Known calls names codes

get_event_info-known :
    (calls : Calls) (memory : Bool) (name : Text) (code : ℕ) (g : Globals)
    → calls.event_name_to_code name ≡ some code
    → calls.query_event code ≡ true
    → g.global_num_cntrs < length g.event_codes
    → get_event_info calls memory name g
      ≡ ok (
        record g {
          event_codes = set g.event_codes g.global_num_cntrs code;
          global_num_cntrs = g.global_num_cntrs + 1;
        },
        if memory then some (metric_name name) else none,
      )
unfolding get_event_info register_code
get_event_info-known calls memory name code g e q lt =
    rw (get_event_info, e, lt→ltb g.global_num_cntrs (length g.event_codes) lt, q) refl

get_event_info-full :
    (calls : Calls) (memory : Bool) (name : Text) (code : ℕ) (g : Globals)
    → calls.event_name_to_code name ≡ some code
    → length g.event_codes ≤ g.global_num_cntrs
    → get_event_info calls memory name g ≡ fault out_of_bounds
unfolding get_event_info
get_event_info-full calls memory name code g e le =
    rw (get_event_info, e) (rw (le→ltb g.global_num_cntrs (length g.event_codes) le) refl)

length-pre : (pre post : List ℕ) (code : ℕ) → length pre < length (pre ++ code ∷ post)
length-pre pre post code = omega (arith, length-append pre (code ∷ post))

-- What the calls leave: the codes `pre ++ codes` stand at the front.
record Registered (pre codes post : List ℕ) (n : ℕ) (r : Globals × List (Option Text))
    : Type 0 where
  pub codes_are : r.0.event_codes ≡ pre ++ (codes ++ drop (length codes) post)
  pub number : r.0.global_num_cntrs ≡ length pre + length codes
  pub results : length r.1 ≡ n

get_event_infos-Registered :
    (calls : Calls) (memory : Bool) (names : List Text) (codes pre post : List ℕ) (g : Globals)
    → Known calls names codes
    → g.event_codes ≡ pre ++ post
    → g.global_num_cntrs ≡ length pre
    → length codes ≤ length post
    → Returns (get_event_infos calls memory names g) (Registered pre codes post (length names))
unfolding get_event_infos
get_event_infos-Registered calls memory [] [] pre post g k e n le =
    ((g, []), refl, record { codes_are = e; number = omega (arith, n); results = refl })
get_event_infos-Registered calls memory [] (code ∷ codes) pre post g k e n le = absurd k
get_event_infos-Registered calls memory (name ∷ names) [] pre post g k e n le = absurd k
get_event_infos-Registered calls memory (name ∷ names) (code ∷ codes) pre [] g k e n le =
    absurd (omega arith)
get_event_infos-Registered calls memory (name ∷ names) (code ∷ codes) pre (x ∷ post) g (c, q, k) e n
      le =
    let g' = record g {
      event_codes = set g.event_codes g.global_num_cntrs code;
      global_num_cntrs = g.global_num_cntrs + 1;
    } in
    let (r, run, h) =
      get_event_infos-Registered calls memory names codes (pre ++ code ∷ []) post g' k
        (ap (λ l. set l g.global_num_cntrs code) e
          ∙ ap (λ i. set (pre ++ x ∷ post) i code) n
          ∙ set-append pre x code post)
        (omega (arith, n, length-append pre (code ∷ []))) (omega arith) in
    (
      (r.0, (if memory then some (metric_name name) else none) ∷ r.1),
      rw
          (
            get_event_info-known calls memory name code g c q
                (omega (arith, n, ap length e, length-append pre (x ∷ post))),
            ◌>>=◌,
            run,
          )
          refl,
      record {
        codes_are = h.codes_are ∙ append_assoc pre (code ∷ []) (codes ++ drop (length codes) post);
        number = omega (arith, h.number, length-append pre (code ∷ []));
        results = ap suc h.results;
      },
    )

get_event_infos_overflow :
    (calls : Calls) (memory : Bool) (names : List Text) (codes pre post : List ℕ) (g : Globals)
    → Known calls names codes
    → g.event_codes ≡ pre ++ post
    → g.global_num_cntrs ≡ length pre
    → length post < length codes
    → get_event_infos calls memory names g ≡ fault out_of_bounds
unfolding get_event_infos
get_event_infos_overflow calls memory [] [] pre post g k e n lt = absurd (omega arith)
get_event_infos_overflow calls memory [] (code ∷ codes) pre post g k e n lt = absurd k
get_event_infos_overflow calls memory (name ∷ names) [] pre post g k e n lt = absurd k
get_event_infos_overflow calls memory (name ∷ names) (code ∷ codes) pre [] g (c, q, k) e n lt =
    rw
      (get_event_info-full calls memory name code g c
        (omega (arith, n, ap length e, length-append pre [])))
      refl
get_event_infos_overflow calls memory (name ∷ names) (code ∷ codes) pre (x ∷ post) g (c, q, k) e n
      lt =
    let g' = record g {
      event_codes = set g.event_codes g.global_num_cntrs code;
      global_num_cntrs = g.global_num_cntrs + 1;
    } in
    rw
      (
        get_event_info-known calls memory name code g c q
            (omega (arith, n, ap length e, length-append pre (x ∷ post))),
        ◌>>=◌,
        get_event_infos_overflow calls memory names codes (pre ++ code ∷ []) post g' k
            (ap (λ l. set l g.global_num_cntrs code) e
              ∙ ap (λ i. set (pre ++ x ∷ post) i code) n
              ∙ set-append pre x code post)
            (omega (arith, n, length-append pre (code ∷ []))) (omega arith),
      )
      refl

-- Where no code is registered yet, and PAPI knows all the names: if they are no more than
-- `EventCodes` has elements, the calls have no undefined behaviour, their codes are the first
-- elements of `EventCodes`, in order, and `global_num_cntrs` counts them; if they are more, a code is
-- written behind the array.
pub get_event_infos-codes :
    (calls : Calls) (memory : Bool) (names : List Text) (codes : List ℕ) (g : Globals)
    → Known calls names codes
    → g.global_num_cntrs ≡ 0
    → (length codes ≤ length g.event_codes
        → Returns (get_event_infos calls memory names g) (λ r.
          (r.0.event_codes ≡ codes ++ drop (length codes) g.event_codes)
          × (r.0.global_num_cntrs ≡ length codes)))
      × (length g.event_codes < length codes
          → get_event_infos calls memory names g ≡ fault out_of_bounds)
get_event_infos-codes calls memory names codes g k n = (
  λ le.
      let (r, run, h) =
        get_event_infos-Registered calls memory names codes [] g.event_codes g k refl n le in
      (r, run, (h.codes_are, omega (arith, h.number))),
  λ lt. get_event_infos_overflow calls memory names codes [] g.event_codes g k refl n lt,
)
