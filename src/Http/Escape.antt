-- ===== src/Http/Escape.antt =====
-- `escapeHtml` of src/modules/transfers/controllers/funding-callback.controller.ts: the landing page shows
-- the texts of its query, each inside a `code` element. Only `&`, `<`, `>` and the double quote are
-- escaped; a single quote stays as it is.
use Prim.Native.Char.{Char, code}
use mathlib.Core.Path.{subst}
use text.Mathlib.TextEquality.{Char-path}
use Prim.Native.String.{◌++◌}
use prestohq_assessment.Prelude.{
  Option, or_else, ℕ, zero, suc, String, ◌≡◌, refl, ap, sym, Bool, true, false, ◌==◌, inl, inr,
  Bool-cases, if◌then◌else◌, arith,
}
use prestohq_assessment.Prelude.Text.{starts_with}

unfoldable pub join_text : String → String → String
join_text String.[] t = t
join_text (String.◌∷◌ c s) t = String.◌∷◌ c (join_text s t)

-- s.replace(/c/g, t), for the character of one code
unfoldable pub replace_all : ℕ → String → String → String
replace_all k t String.[] = ""
replace_all k t (String.◌∷◌ c s) =
    let rest = replace_all k t s in if code c == k then join_text t rest else String.◌∷◌ c rest

-- `escapeHtml`
unfoldable pub escape_html : String → String
escape_html value =
    replace_all b'"' "&quot;"
      (replace_all b'>' "&gt;" (replace_all b'<' "&lt;" (replace_all b'&' "&amp;" value)))

-- `callback`
unfoldable pub callback : (status tx_ref transaction_id : Option String) → String
callback status tx_ref transaction_id =
    "<!DOCTYPE html>\n"
    ++ "<html lang=\"en\">\n"
    ++ "<head>\n"
    ++ "  <meta charset=\"utf-8\" />\n"
    ++ "  <meta name=\"viewport\" content=\"width=device-width, initial-scale=1\" />\n"
    ++ "  <title>Payment received</title>\n"
    ++ "  <style>\n"
    ++ "    body { font-family: system-ui, sans-serif; max-width: 32rem; margin: 3rem auto; padding: 0 1rem; color: #111; }\n"
    ++ "    h1 { font-size: 1.35rem; margin-bottom: 0.5rem; }\n"
    ++ "    p { line-height: 1.5; color: #333; }\n"
    ++ "    code { background: #f3f3f3; padding: 0.15rem 0.35rem; border-radius: 4px; font-size: 0.9em; }\n"
    ++ "  </style>\n"
    ++ "</head>\n"
    ++ "<body>\n"
    ++ "  <h1>Payment received</h1>\n"
    ++ "  <p>You can close this tab. Your wallet updates when Flutterwave confirms the payment (webhook).</p>\n"
    ++ "  <p>Status: <code>"
    ++ escape_html (or_else status "unknown")
    ++ "</code></p>\n"
    ++ "  <p>Reference: <code>"
    ++ escape_html (or_else tx_ref "—")
    ++ "</code></p>\n"
    ++ "  <p>Transaction id: <code>"
    ++ escape_html (or_else transaction_id "—")
    ++ "</code></p>\n"
    ++ "</body>\n"
    ++ "</html>"

-- How a browser reads a text with these four entities; the number is what is left of the last one.
unfoldable pub read_entities : ℕ → String → String
read_entities n String.[] = ""
read_entities (suc n) (String.◌∷◌ c s) = read_entities n s
read_entities zero (String.◌∷◌ c s) =
    if starts_with (String.◌∷◌ c s) "&amp;"
    then join_text "&" (read_entities 4 s)
    else if starts_with (String.◌∷◌ c s) "&lt;"
    then join_text "<" (read_entities 3 s)
    else if starts_with (String.◌∷◌ c s) "&gt;"
    then join_text ">" (read_entities 3 s)
    else if starts_with (String.◌∷◌ c s) "&quot;"
    then join_text "\"" (read_entities 5 s)
    else String.◌∷◌ c (read_entities 0 s)

-- Whether a text has a character of one code
unfoldable pub has_char : ℕ → String → Bool
has_char k String.[] = false
has_char k (String.◌∷◌ c s) = if code c == k then true else has_char k s

-- What the escaping of a text begins with, by its first character
module _ (c : Char) (s : String) where
  first_amp :
      (code c == b'&') ≡ true → escape_html (String.◌∷◌ c s) ≡ join_text "&amp;" (escape_html s)
  unfolding escape_html replace_all join_text
  first_amp is = rw is

  first_lt :
      (code c == b'<') ≡ true → escape_html (String.◌∷◌ c s) ≡ join_text "&lt;" (escape_html s)
  unfolding escape_html replace_all join_text
  first_lt is = let other : (code c == b'&') ≡ false = ground (arith, is) in rw (other, is)

  first_gt :
      (code c == b'>') ≡ true → escape_html (String.◌∷◌ c s) ≡ join_text "&gt;" (escape_html s)
  unfolding escape_html replace_all join_text
  first_gt is =
      let no_amp : (code c == b'&') ≡ false = ground (arith, is) in
      let no_lt : (code c == b'<') ≡ false = ground (arith, is) in rw (no_amp, no_lt, is)

  first_quot :
      (code c == b'"') ≡ true → escape_html (String.◌∷◌ c s) ≡ join_text "&quot;" (escape_html s)
  unfolding escape_html replace_all join_text
  first_quot is =
      let no_amp : (code c == b'&') ≡ false = ground (arith, is) in
      let no_lt : (code c == b'<') ≡ false = ground (arith, is) in
      let no_gt : (code c == b'>') ≡ false = ground (arith, is) in rw (no_amp, no_lt, no_gt, is)

  first_plain :
      (code c == b'&') ≡ false
      → (code c == b'<') ≡ false
      → (code c == b'>') ≡ false
      → (code c == b'"') ≡ false
      → escape_html (String.◌∷◌ c s) ≡ String.◌∷◌ c (escape_html s)
  unfolding escape_html replace_all
  first_plain no_amp no_lt no_gt no_quot = rw (no_amp, no_lt, no_gt, no_quot)

  same_first : (d : Char) → (code c == code d) ≡ true → String.◌∷◌ d s ≡ String.◌∷◌ c s
  same_first d is = ap (λ x. String.◌∷◌ x s) (Char-path d c (ground (arith, is)))

-- What a browser reads is the text that was escaped, and its source has no `<`, no `>` and no double quote.
pub record IsEscaped (text source : String) : Type 0 where
  pub shown : read_entities 0 source ≡ text
  pub no_lt : has_char b'<' source ≡ false
  pub no_gt : has_char b'>' source ≡ false
  pub no_quot : has_char b'"' source ≡ false

module _ (c : Char) (s t : String) (h : IsEscaped s t) where
  amp-IsEscaped : (code c == b'&') ≡ true → IsEscaped (String.◌∷◌ c s) (join_text "&amp;" t)
  unfolding read_entities has_char join_text starts_with
  amp-IsEscaped is = record {
    shown = rw h.shown (same_first c s "&" is);
    no_lt = h.no_lt;
    no_gt = h.no_gt;
    no_quot = h.no_quot;
  }

  lt-IsEscaped : (code c == b'<') ≡ true → IsEscaped (String.◌∷◌ c s) (join_text "&lt;" t)
  unfolding read_entities has_char join_text starts_with
  lt-IsEscaped is = record {
    shown = rw h.shown (same_first c s "<" is);
    no_lt = h.no_lt;
    no_gt = h.no_gt;
    no_quot = h.no_quot;
  }

  gt-IsEscaped : (code c == b'>') ≡ true → IsEscaped (String.◌∷◌ c s) (join_text "&gt;" t)
  unfolding read_entities has_char join_text starts_with
  gt-IsEscaped is = record {
    shown = rw h.shown (same_first c s ">" is);
    no_lt = h.no_lt;
    no_gt = h.no_gt;
    no_quot = h.no_quot;
  }

  quot-IsEscaped : (code c == b'"') ≡ true → IsEscaped (String.◌∷◌ c s) (join_text "&quot;" t)
  unfolding read_entities has_char join_text starts_with
  quot-IsEscaped is = record {
    shown = rw h.shown (same_first c s "\"" is);
    no_lt = h.no_lt;
    no_gt = h.no_gt;
    no_quot = h.no_quot;
  }

  plain-IsEscaped :
      (code c == b'&') ≡ false
      → (code c == b'<') ≡ false
      → (code c == b'>') ≡ false
      → (code c == b'"') ≡ false
      → IsEscaped (String.◌∷◌ c s) (String.◌∷◌ c t)
  unfolding read_entities has_char starts_with
  plain-IsEscaped no_amp no_lt no_gt no_quot = record {
    shown = rw no_amp (ap (λ r. String.◌∷◌ c r) h.shown);
    no_lt = rw no_lt h.no_lt;
    no_gt = rw no_gt h.no_gt;
    no_quot = rw no_quot h.no_quot;
  }

-- The escaping of any text reads in a browser as that text, and has no `<`, no `>` and no double quote.
pub escape_html-IsEscaped : (text : String) → IsEscaped text (escape_html text)
unfolding escape_html replace_all read_entities has_char
escape_html-IsEscaped String.[] = record {
  shown = refl;
  no_lt = refl;
  no_gt = refl;
  no_quot = refl;
}
escape_html-IsEscaped (String.◌∷◌ c s) =
    let h : IsEscaped s (escape_html s) = escape_html-IsEscaped s in
    elim (Bool-cases (code c == b'&')) [
      | inl amp ↦
          subst (IsEscaped (String.◌∷◌ c s)) (sym (first_amp c s amp))
            (amp-IsEscaped c s (escape_html s) h amp)
      | inr no_amp ↦ elim (Bool-cases (code c == b'<')) [
        | inl lt ↦
            subst (IsEscaped (String.◌∷◌ c s)) (sym (first_lt c s lt))
              (lt-IsEscaped c s (escape_html s) h lt)
        | inr no_lt ↦ elim (Bool-cases (code c == b'>')) [
          | inl gt ↦
              subst (IsEscaped (String.◌∷◌ c s)) (sym (first_gt c s gt))
                (gt-IsEscaped c s (escape_html s) h gt)
          | inr no_gt ↦ elim (Bool-cases (code c == b'"')) [
            | inl quot ↦
                subst (IsEscaped (String.◌∷◌ c s)) (sym (first_quot c s quot))
                  (quot-IsEscaped c s (escape_html s) h quot)
            | inr no_quot ↦
                subst (IsEscaped (String.◌∷◌ c s))
                  (sym (first_plain c s no_amp no_lt no_gt no_quot))
                  (plain-IsEscaped c s (escape_html s) h no_amp no_lt no_gt no_quot)
          ]
        ]
      ]
    ]
