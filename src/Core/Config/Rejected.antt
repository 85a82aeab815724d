-- ===== src/Core/Config/Rejected.antt =====
-- A file that the parser of config.rs rejects: what its error names.
use Prim.Native.String.{◌++◌}
use network_l4_monitoring_co.Base.{
  ℕ, suc, ◌+◌, ◌<◌, ◌≡◌, ◌≢◌, refl, subst, String, List, [], ◌∷◌, Option, length, take, arith,
  Bool-cases, inl, inr, ◌⊎◌, Option-cases,
}
use network_l4_monitoring_co.Base.Text.{is_empty, trim, split_once, lines}
use network_l4_monitoring_co.Core.Error.{Error, config, show_error, Result, ok, err, ◌>>=◌}
use network_l4_monitoring_co.Core.Float.{FloatOps, Fmt}
use network_l4_monitoring_co.Core.Config.{Config, default}
use network_l4_monitoring_co.Core.Config.Parse.{
  strip_comment, header, apply, at_line, set_line, take_line, parse_lines, from_str,
}

n_eq : (n : ℕ) → n ≡ n + 0
n_eq n = omega arith

shift : (n i : ℕ) → n + 1 + i ≡ n + suc i
shift n i = omega arith

module _ {E F : Type 0} (ops : FloatOps F) (fmt : Fmt F) (read_f64 : String → Option F) where
  -- The error of line `n + i`, before which the lines are accepted.
  abbrev pub FailsAt : (E → String) → ℕ → List String → String → Config F → Error E → Type 0
  FailsAt show_io n raws section cfg e =
      (i : ℕ) × (why : String) × (cfg' : Config F) × (i < length raws)
      × (e ≡ config ("line " ++ fmt.show_nat (n + i) ++ ": " ++ why))
      × (parse_lines ops fmt read_f64 show_io n (take i raws) section cfg ≡ ok cfg')

  ok_ne_err : {A : Type 0} (a : A) (e : Error E) → ok a ≢ err e
  ok_ne_err a e h = absurd (cc)

  bind-err :
      {A B : Type 0} (r : Result E A) (f : A → Result E B) (e : Error E)
      → (r >>= f) ≡ err e
      → (r ≡ err e) ⊎ ((a : A) × (r ≡ ok a) × (f a ≡ err e))
  bind-err (ok a) f e h = inr (a, refl, h)
  bind-err (err d) f e h = inl (cc)

  -- The error is of line `n`.
  abbrev Names : ℕ → Error E → Type 0
  Names n e = (why : String) × (e ≡ config ("line " ++ fmt.show_nat n ++ ": " ++ why))

  at_line-Names :
      (show_io : E → String) (n : ℕ) (r : Result E (Config F)) (e : Error E)
      → at_line ops fmt read_f64 show_io n r ≡ err e
      → Names n e
  at_line-Names show_io n (ok a) e h = absurd (cc)
  at_line-Names show_io n (err d) e h = (show_error show_io d, cc)

  set_line-Names :
      (show_io : E → String) (n : ℕ) (line section : String) (cfg : Config F) (e : Error E)
      → set_line ops fmt read_f64 show_io n line section cfg ≡ err e
      → Names n e
  unfolding set_line
  set_line-Names show_io n line section cfg e h = elim (Option-cases (split_once 61 line)) [
    | inl none_is ↦
        let is : e ≡ config ("line " ++ fmt.show_nat n ++ ": expected key = value") =
          ground arith in
        ("expected key = value", is)
    | inr ((k, v), some_is) ↦
        at_line-Names show_io n (apply ops fmt read_f64 cfg section (trim k) (trim v)) e
          (ground arith)
  ]

  take_line-Names :
      (show_io : E → String) (n : ℕ) (raw section : String) (cfg : Config F) (e : Error E)
      → take_line ops fmt read_f64 show_io n raw section cfg ≡ err e
      → Names n e
  unfolding take_line
  take_line-Names show_io n raw section cfg e h =
      let line = trim (strip_comment raw) in
      elim (Bool-cases (is_empty line)) [
        | inl blank ↦ absurd (ground arith)
        | inr text ↦ elim (Option-cases (header line)) [
          | inr (sec, head) ↦ absurd (ground arith)
          | inl other ↦
              let set = set_line ops fmt read_f64 show_io n line section cfg in
              let went : ◌≡◌ {A = Result E (String × Config F)} (set >>= λ c. ok (section, c))
                  (err e) =
                ground arith in
              elim (bind-err set (λ c. ok (section, c)) e went) [
                | inl failed ↦ set_line-Names show_io n line section cfg e failed
                | inr (c, done, at) ↦ absurd (ok_ne_err (section, c) e at)
              ]
        ]
      ]

  parse_lines-FailsAt :
      (show_io : E → String) (n : ℕ) (raws : List String) (section : String) (cfg : Config F)
      (e : Error E)
      → parse_lines ops fmt read_f64 show_io n raws section cfg ≡ err e
      → FailsAt show_io n raws section cfg e
  unfolding parse_lines
  parse_lines-FailsAt show_io n [] section cfg e h = absurd (cc)
  parse_lines-FailsAt show_io n (raw ∷ raws) section cfg e h =
      let go =
        λ (p : String × Config F). parse_lines ops fmt read_f64 show_io (n + 1) raws p.0 p.1 in
      elim (bind-err (take_line ops fmt read_f64 show_io n raw section cfg) go e h) [
        | inl failed ↦
            let (why, is) = take_line-Names show_io n raw section cfg e failed in
            (
              0,
              why,
              cfg,
              omega arith,
              subst (λ k. e ≡ config ("line " ++ fmt.show_nat k ++ ": " ++ why)) (n_eq n) is,
              refl,
            )
        | inr ((section', mid), took, failed) ↦
            let (i, why, cfg', short, is, before) =
              parse_lines-FailsAt show_io (n + 1) raws section' mid e failed in
            (
              suc i,
              why,
              cfg',
              omega arith,
              subst (λ k. e ≡ config ("line " ++ fmt.show_nat k ++ ": " ++ why)) (shift n i) is,
              rw took before,
            )
      ]

  -- The error of a text that is rejected names one of its lines, counted from 1, and the lines before
  -- that one are accepted on their own.
  pub from_str-FailsAt :
      (show_io : E → String) (text : String) (e : Error E)
      → from_str ops fmt read_f64 show_io text ≡ err e
      → FailsAt show_io 1 (lines text) "" (default ops) e
  unfolding from_str
  from_str-FailsAt show_io text e h =
      parse_lines-FailsAt show_io 1 (lines text) "" (default ops) e h
