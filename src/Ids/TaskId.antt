-- ===== src/Ids/TaskId.antt =====
-- client-request/rust/src/id_generator.rs: what a task id does and does not tell apart.
use dragonfly_sdk.Base.{◌≡◌, sym, ap, ap₂, ◌∙◌, ◌++◌, Text}
use mathlib.Core.List.{append_assoc}
use dragonfly_sdk.Ids.{
  IdApi, IdGenerator, UrlBased, url_based, optional, optional_number, hashed_text, task_id,
}

regroup : (a b c r : Text) → a ++ (b ++ (c ++ r)) ≡ (a ++ (b ++ c)) ++ r
regroup a b c r = simp append_assoc

module _ (I : IdApi) (p q : UrlBased) where
  hashed_text_eq :
      optional p.tag ++ (optional p.application ++ optional p.revision)
        ≡ optional q.tag ++ (optional q.application ++ optional q.revision)
      → p.piece_length ≡ q.piece_length
      → (final_url : Text) → hashed_text I p final_url ≡ hashed_text I q final_url
  unfolding hashed_text
  hashed_text_eq spelled pieces final_url = ap (◌++◌ final_url) (
      regroup (optional p.tag) (optional p.application) (optional p.revision) _
      ∙ ap₂ (λ t n. t ++ (optional_number n ++ I.standard_name)) spelled pieces
      ∙ sym (regroup (optional q.tag) (optional q.application) (optional q.revision) _))

-- The parts of a url based task id are hashed in a row with nothing between them, so two requests
-- for one url, with the same filter and piece length, share their task id whenever their tags,
-- applications and revisions spell the same text together.
pub task_id_unseparated :
    (I : IdApi) (g : IdGenerator) (p q : UrlBased)
    → p.url ≡ q.url
    → p.filtered_query_params ≡ q.filtered_query_params
    → p.piece_length ≡ q.piece_length
    → optional p.tag ++ (optional p.application ++ optional p.revision)
      ≡ optional q.tag ++ (optional q.application ++ optional q.revision)
    → task_id I g (url_based p) ≡ task_id I g (url_based q)
unfolding task_id
task_id_unseparated I g p q url filters pieces spelled =
    rw (url, filters) (simp (hashed_text_eq I p q spelled pieces))
