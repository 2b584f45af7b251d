-- ===== src/Viewings/Text.antt =====
-- `text` of src/application-viewings/application-viewing.policy.ts: a text of a user is trimmed and
-- has to be plain. A text is the list of its UTF-16 code units.
pub mod Laws
use renyqo_app.Prelude.{
  ℕ, Bool, true, false, not, Option, none, some, List, [], ◌∷◌, ◌&&◌, ◌||◌, ◌==◌, ltb, leb, length,
  if◌then◌else◌,
}

abbrev pub Text : Type 0
Text = List ℕ

-- the code units that `String.prototype.trim` removes
unfoldable pub is_space : ℕ → Bool
is_space c =
    (leb 9 c && leb c 13)
    || (c == 32
        || (c == 160
            || (c == 5760
                || ((leb 8192 c && leb c 8202)
                    || (c == 8232
                        || (c == 8233
                            || (c == 8239 || (c == 8287 || (c == 12288 || c == 65279)))))))))

-- the class `\p{Cc}` less CR, LF and tab, and the angle brackets
unfoldable pub is_refused : ℕ → Bool
is_refused c =
    c == 60
    || (c == 62 || ((leb c 31 || (leb 127 c && leb c 159)) && not (c == 13 || (c == 10 || c == 9))))

unfoldable pub trim_start : Text → Text
unfolding is_space
trim_start [] = []
trim_start (c ∷ cs) = if is_space c then trim_start cs else c ∷ cs

abbrev pub is_nil : Text → Bool
is_nil [] = true
is_nil _ = false

-- A code unit stays before the rest of the text unless both are space.
abbrev pub keep : ℕ → Text → Text
keep c rest = if is_nil rest && is_space c then [] else c ∷ rest

unfoldable pub trim_end : Text → Text
unfolding is_space
trim_end [] = []
trim_end (c ∷ cs) = keep c (trim_end cs)

unfoldable pub is_plain : Text → Bool
unfolding is_refused
is_plain [] = true
is_plain (c ∷ cs) = not (is_refused c) && is_plain cs

pub data TextResult : Type 0 where
  no_text not_plain : TextResult
  plain : Text → TextResult

abbrev pub accepted_text : Text → TextResult
accepted_text t =
    if is_nil t || (ltb 500 (length t) || not (is_plain t)) then not_plain else plain t

-- `ApplicationViewingPolicy.text`
unfoldable pub text : Option Text → TextResult
unfolding trim_start trim_end is_plain
text none = no_text
text (some value) = accepted_text (trim_end (trim_start value))
