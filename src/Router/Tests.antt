-- ===== src/Router/Tests.antt =====
-- internal/llm/router.go: the theorems at a concrete router, whose contexts are texts.
use os_complete.Base.{String, false, pos, ite, dec_str}
use os_complete.Router.Fallback.{Outcome, complete-Outcome}
use os_complete.Router.{
  Request, Response, Usage, message, answered, failed, Provider, Router, new_router, register,
  set_default, set_fallback, select_provider, complete,
}

lowered : String → String
lowered role = ite (dec_str role "Coder") "coder" role

abbrev response : Response
response = record {
  text = "done";
  provider = "";
  model = "m";
  requested_provider = "";
  fallback = false;
  fallback_from = "";
  fallback_reason = "";
  evidence_mode = "";
}

abbrev usage : Usage
usage = record {
  prompt_tokens = pos 3;
  completion_tokens = pos 1;
  cached_tokens = pos 1;
  prompt_ms = pos 1;
  ttft_ms = pos 1;
  total_ms = pos 1;
  mode = "mock";
}

broken : Provider String
broken ctx req = failed (message "timeout")

steady : Provider String
steady ctx req = answered response usage

abbrev router : Router String lowered
router = set_fallback String lowered "mock" (
    set_default String lowered "remote" (
      register String lowered "mock" steady
        (register String lowered "remote" broken (new_router String lowered))))

abbrev request : Request
request = record { agent_id = "coder-2"; role = "coder"; provider = ""; prompt = "go" }

complete-Outcome_example :
    Outcome String lowered "" request
      (select_provider String lowered router request)
      (complete String lowered "" request router)
complete-Outcome_example = complete-Outcome String lowered "" request router
