-- ===== src/Core/Config/Lines.antt =====
-- The whole file of config.rs: what a file that is accepted consists of.
use text.Mathlib.Text.{◌==◌ as str_eq}
use network_l4_monitoring_co.Base.{
  ℕ, ◌+◌, ◌≡◌, refl, ap, ◌∙◌, subst, String, true, false, List, [], ◌∷◌, Option, none, some, All,
  arith, Bool-cases, inl, inr, Option-cases,
}
use network_l4_monitoring_co.Base.Text.{is_empty, trim, split_once, lines}
use network_l4_monitoring_co.Core.Error.{Result, ok, err, ◌>>=◌}
use network_l4_monitoring_co.Core.Float.{FloatOps, Fmt}
use network_l4_monitoring_co.Core.Config.{Config, default}
use network_l4_monitoring_co.Core.Config.Parse.{
  strip_comment, header, apply, at_line, set_line, take_line, parse_lines, from_str,
}
use network_l4_monitoring_co.Core.Config.Accepted.{listed, keys_of, Sets, apply-Sets}

-- The lines of a text that set something, each with its section; comments are cut off.
abbrev pub settings : String → List String → List (String × String)
settings section [] = []
settings section (raw ∷ raws) =
    let line = trim (strip_comment raw) in
    elim (is_empty line) [
      | true ↦ settings section raws
      | false ↦ elim (header line) [
        | some sec ↦ settings (trim sec) raws
        | none ↦ (section, line) ∷ settings section raws
      ]
    ]

-- A setting of a key that its section has.
abbrev pub IsKnown : String × String → Type 0
IsKnown (section, line) =
    (k : String) × (v : String) × (split_once 61 line ≡ some (k, v))
    × (listed (trim k) (keys_of section) ≡ true)

abbrev pub Outside : String → String × String → Type 0
Outside name setting = str_eq setting.0 name ≡ false

-- The settings are known, and a section that none of them stands in stays as it is.
pub record Layers {F : Type 0} (sets : List (String × String)) (cfg cfg' : Config F) : Type 0 where
  pub known : All IsKnown sets
  pub capture : All (Outside "capture") sets → cfg'.capture ≡ cfg.capture
  pub detect : All (Outside "detect") sets → cfg'.detect ≡ cfg.detect
  pub export : All (Outside "export") sets → cfg'.export ≡ cfg.export
  pub otlp : All (Outside "otlp") sets → cfg'.otlp ≡ cfg.otlp

module _ {F : Type 0} where
  Layers-cons :
      (section line : String) (rest : List (String × String)) (cfg mid cfg' : Config F)
      → ((k : String) × (v : String) × (split_once 61 line ≡ some (k, v))
          × Sets section (trim k) cfg mid)
      → Layers rest mid cfg'
      → Layers ((section, line) ∷ rest) cfg cfg'
  Layers-cons section line rest cfg mid cfg' (k, v, e, s) l = record {
    known = ((k, v, e, s.known), l.known);
    capture = λ o. l.capture o.1 ∙ s.capture o.0;
    detect = λ o. l.detect o.1 ∙ s.detect o.0;
    export = λ o. l.export o.1 ∙ s.export o.0;
    otlp = λ o. l.otlp o.1 ∙ s.otlp o.0;
  }

module _ {E F : Type 0} (ops : FloatOps F) (fmt : Fmt F) (read_f64 : String → Option F) where
  bind-ok :
      {A B : Type 0} (r : Result E A) (f : A → Result E B) (b : B)
      → (r >>= f) ≡ ok b
      → (a : A) × (r ≡ ok a) × (f a ≡ ok b)
  bind-ok (ok a) f b h = (a, refl, h)
  bind-ok (err e) f b h = absurd (cc)

  at_line-ok :
      (show_io : E → String) (n : ℕ) (r : Result E (Config F)) (c : Config F)
      → at_line ops fmt read_f64 show_io n r ≡ ok c
      → r ≡ ok c
  at_line-ok show_io n (ok a) c h = h
  at_line-ok show_io n (err e) c h = absurd (cc)

  set_line-Sets :
      (show_io : E → String) (n : ℕ) (line section : String) (cfg cfg' : Config F)
      → set_line ops fmt read_f64 show_io n line section cfg ≡ ok cfg'
      → (k : String) × (v : String) × (split_once 61 line ≡ some (k, v))
        × Sets section (trim k) cfg cfg'
  unfolding set_line
  set_line-Sets show_io n line section cfg cfg' h = elim (Option-cases (split_once 61 line)) [
    | inl e ↦ absurd (ground arith)
    | inr ((k, v), e) ↦
        let r = apply ops fmt read_f64 cfg section (trim k) (trim v) in
        let done : at_line ops fmt read_f64 show_io n r ≡ ok cfg' = ground arith in
        (
          k,
          v,
          e,
          apply-Sets ops fmt read_f64 cfg cfg' section (trim k) (trim v)
              (at_line-ok show_io n r cfg' done),
        )
  ]

  ok-parts :
      (s t : String) (a b : Config F)
      → ◌≡◌ {A = Result E (String × Config F)} (ok (s, a)) (ok (t, b))
      → (t ≡ s) × (b ≡ a)
  ok-parts s t a b h = (cc, cc)

  take_line-Layers :
      (show_io : E → String) (n : ℕ) (raw section section' : String) (raws : List String)
      (cfg mid cfg' : Config F)
      → take_line ops fmt read_f64 show_io n raw section cfg ≡ ok (section', mid)
      → Layers (settings section' raws) mid cfg'
      → Layers (settings section (raw ∷ raws)) cfg cfg'
  unfolding take_line
  take_line-Layers show_io n raw section section' raws cfg mid cfg' h l =
      let line = trim (strip_comment raw) in
      elim (Bool-cases (is_empty line)) [
        | inl blank ↦
            let went : ◌≡◌ {A = Result E (String × Config F)} (ok (section, cfg))
                (ok (section', mid)) =
              ground arith in
            let to : section' ≡ section = cc in
            let same : mid ≡ cfg = cc in
            rw (blank, settings)
              (subst (λ c. Layers (settings section raws) c cfg') same
                (subst (λ t. Layers (settings t raws) mid cfg') to l))
        | inr text ↦ elim (Option-cases (header line)) [
          | inr (sec, head) ↦
              let went : ◌≡◌ {A = Result E (String × Config F)} (ok (trim sec, cfg))
                  (ok (section', mid)) =
                ground arith in
              let to : section' ≡ trim sec = cc in
              let same : mid ≡ cfg = cc in
              rw (text, settings)
                (rw head (
                  subst (λ c. Layers (settings (trim sec) raws) c cfg') same
                    (subst (λ t. Layers (settings t raws) mid cfg') to l)))
          | inl other ↦
              let set = set_line ops fmt read_f64 show_io n line section cfg in
              let went : ◌≡◌ {A = Result E (String × Config F)} (set >>= λ c. ok (section, c))
                  (ok (section', mid)) =
                ground arith in
              let (c, done, at) = bind-ok set (λ c. ok (section, c)) (section', mid) went in
              let (to, same) = ok-parts section section' c mid at in
              rw (text, settings)
                (rw other (
                  Layers-cons section line (settings section raws) cfg c cfg'
                    (set_line-Sets show_io n line section cfg c done)
                    (subst (λ c. Layers (settings section raws) c cfg') same
                      (subst (λ t. Layers (settings t raws) mid cfg') to l))))
        ]
      ]

  parse_lines-Layers :
      (show_io : E → String) (n : ℕ) (raws : List String) (section : String) (cfg cfg' : Config F)
      → parse_lines ops fmt read_f64 show_io n raws section cfg ≡ ok cfg'
      → Layers (settings section raws) cfg cfg'
  unfolding parse_lines
  parse_lines-Layers show_io n [] section cfg cfg' h =
      let same : cfg' ≡ cfg = cc in
      record {
        known = tt;
        capture = λ o. ap (λ c. c.capture) same;
        detect = λ o. ap (λ c. c.detect) same;
        export = λ o. ap (λ c. c.export) same;
        otlp = λ o. ap (λ c. c.otlp) same;
      }
  parse_lines-Layers show_io n (raw ∷ raws) section cfg cfg' h =
      let ((section', mid), took, rest) =
        bind-ok (take_line ops fmt read_f64 show_io n raw section cfg)
          (λ (t, c). parse_lines ops fmt read_f64 show_io (n + 1) raws t c) cfg' h in
      take_line-Layers show_io n raw section section' raws cfg mid cfg' took
        (parse_lines-Layers show_io (n + 1) raws section' mid cfg' rest)

  -- A text that is accepted sets only keys that their section has, and the configuration that it
  -- gives has the defaults in every section that it sets nothing of.
  pub from_str-Layers :
      (show_io : E → String) (text : String) (cfg : Config F)
      → from_str ops fmt read_f64 show_io text ≡ ok cfg
      → Layers (settings "" (lines text)) (default ops) cfg
  unfolding from_str
  from_str-Layers show_io text cfg h =
      parse_lines-Layers show_io 1 (lines text) "" (default ops) cfg h
