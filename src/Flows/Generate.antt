-- ===== src/Flows/Generate.antt =====
-- backend/flows/generate.py: one narrative through the router. `sha` is the first 16 hexadecimal
-- digits of SHA-256, and `field` is `str(parsed.get(key, ""))`.
use vectural.Prelude.{
  ◌≡◌, arith, String, Option, none, some, [], ◌∷◌, map, string_key, ◌==◌, if◌then◌else◌,
}
use vectural.Prelude.Float.{Floats}
use vectural.Prelude.Text.{strip, join}
use vectural.Prelude.Dict
use vectural.Prelude.Dict.{Dict}
use vectural.Domain.{flow_narrative, architect}
use vectural.Llm.Failures.{Result, ok, raised}
use vectural.Llm.Catalog.{Catalog}
use vectural.Llm.Router.{Router, Payload, RoutedResponse, route}
use vectural.Flows.Models.{FlowCandidate}

pub record GeneratedNarrative : Type 0 where
  pub text : String
  pub summary : String
  pub content_hash : String

unfoldable pub content_hash : (String → String) → String → String → String
content_hash sha signature prompt_version = sha (join "::" (signature ∷ prompt_version ∷ []))

unfoldable pub fallback_text : FlowCandidate → String
fallback_text c = join "" ("Flow across " ∷ join ", " c.services ∷ " (" ∷ c.trigger ∷ ")." ∷ [])

unfoldable pub summary_line : Dict String String → String → String
summary_line summaries svc =
    join "" ("- " ∷ svc ∷ ": " ∷ Dict.get_or svc "(no service summary yet)" summaries ∷ [])

-- `_render_prompt`
unfoldable pub render_prompt : FlowCandidate → Dict String String → String
unfolding summary_line
render_prompt c summaries = join "" (
    "Write a concise cross-service business narrative for this flow as JSON "
    ∷ "{\"narrative\": string, \"summary\": string}. Describe what happens, in order, "
    ∷ "in business terms.\n"
    ∷ "# TRIGGER\n"
    ∷ c.trigger
    ∷ "\n"
    ∷ "# PATH\n"
    ∷ join " -> " c.services
    ∷ "\n"
    ∷ "# SERVICE SUMMARIES\n"
    ∷ join "\n" (map (summary_line summaries) c.services)
    ∷ [])

module _ (F : Floats) (W J : Type 0) (sha : String → String) (field : String → J → String) where
  parsed_field : String → Option J → String
  parsed_field key none = ""
  parsed_field key (some j) = strip (field key j)

  unfoldable pub narrate :
      FlowCandidate → String → Result (RoutedResponse J) → Result GeneratedNarrative
  unfolding fallback_text parsed_field
  narrate c version (raised f) = raised f
  narrate c version (ok response) =
      let text = parsed_field "narrative" response.parsed in
      ok (record {
        text = if text == "" then fallback_text c else text;
        summary = parsed_field "summary" response.parsed;
        content_hash = content_hash sha c.signature version;
      })

  unfoldable pub generate_narrative :
      Router F W J
      → Catalog
      → Dict String String
      → String
      → FlowCandidate
      → W
      → Result GeneratedNarrative × W
  unfolding narrate render_prompt
  generate_narrative r catalog summaries version c w =
      let payload : Payload = record {
        prompt = some (render_prompt c summaries);
        system = none;
        max_tokens = some 1500;
        model_override_id = none;
      } in
      let (response, w') =
        route F W J r catalog flow_narrative version payload (some architect) w in
      (narrate c version response, w')

  -- A narrative carries the hash of its candidate's structure and prompt.
  pub generate_narrative-hash :
      (r : Router F W J) (catalog : Catalog) (summaries : Dict String String) (version : String)
      (c : FlowCandidate) (w : W) (g : GeneratedNarrative)
      → (generate_narrative r catalog summaries version c w).0 ≡ ok g
      → g.content_hash ≡ content_hash sha c.signature version
  unfolding generate_narrative narrate
  generate_narrative-hash r catalog summaries version c w g e = ground (arith, e)
