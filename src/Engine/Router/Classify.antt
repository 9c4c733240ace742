-- ===== src/Engine/Router/Classify.antt =====
-- engine/router.js: the tier of a brief. A tier is its word; reading the brief's file is an
-- argument, `brief_text`, that is absent where the prompt names no brief.
use open_vibe_codes.Prelude.{
  ℕ, String, Bool, true, false, not, ◌&&◌, Option, none, some, ltb, if◌then◌else◌,
}
use open_vibe_codes.Runtime.{Runtime}

abbrev pub tier_re : String
tier_re = "^\\s*tier:\\s*(basic|research|standard|hard|design)\\b im"

abbrev pub hard_re : String
hard_re =
    "\\b(race condition|root cause|architecture|security (review|fix|hole)|migration|data loss|deadlock|concurrency bug|memory leak|performance regression|hard bug)\\b i"

abbrev pub design_re : String
design_re =
    "\\b(design pass|redesign|layout|styling|visual|polish the|ui\\b|ux\\b|css|look and feel|screenshots? at 390)\\b i"

abbrev pub research_re : String
research_re =
    "\\b(research|investigate|survey|compare|audit|competitor|do not edit any repository|report only|read-only)\\b i"

abbrev pub builds_re : String
builds_re =
    "\\b(add|build|implement|create|endpoint|api|feature|refactor|migrat|tests?|component|page|service|integrat)\\b i"

abbrev pub chore_re : String
chore_re =
    "\\b(rename|typo|reformat|format|bump|changelog|readme|docs? (update|fix)|add (a )?comment|count|list (all|the)|summari[sz]e|translate|check (that|whether|if)|lint|spell)\\b i"

pub record Judged : Type 0 where
  pub tier : String
  pub why : String
  pub brief : Option String

module _ (js : Runtime) where
  open js use {lower, cut, units, test, group}

  -- The tier a line forces, if it forces one.
  unfoldable pub forced_tier : String → Option String
  forced_tier text = elim (group tier_re text) [ none ↦ none | some word ↦ some (lower word) ]

  -- The rules behind a forced tier, over the head of the text and its whole length.
  unfoldable pub by_words : String → ℕ → String × String
  by_words head size =
      let builds = test builds_re head in
      if test hard_re head
      then ("hard", "a hard problem")
      else if test design_re head
      then ("design", "design work")
      else if test research_re head
      then ("research", "research or audit")
      else if ltb size 1500 && not builds && test chore_re head
      then ("basic", "a small chore")
      else if ltb size 200 && not builds
      then ("basic", "a short question")
      else ("standard", "everyday code")

  -- `forcedTier(head) || (opts.whole ? forcedTier(p) : null)`.
  unfoldable pub forced : String → Bool → Option String
  forced text whole = elim (forced_tier (cut 4000 text)) [
    | some t ↦ some t
    | none ↦ if whole then forced_tier text else none
  ]

  unfoldable pub classify_text : String → Option String → Bool → Judged
  classify_text text brief whole = elim (forced text whole) [
    | some t ↦ record { tier = t; why = "the brief says so"; brief = brief }
    | none ↦
        let (tier, why) = by_words (cut 4000 text) (units text) in
        record { tier = tier; why = why; brief = brief }
  ]

  -- The brief is its text and its file, where the prompt names one that can be read.
  unfoldable pub classify : String → Option (String × Option String) → Judged
  classify prompt none = classify_text prompt none false
  classify prompt (some (text, file)) = classify_text text file true
