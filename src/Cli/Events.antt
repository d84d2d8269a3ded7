-- ===== src/Cli/Events.antt =====
-- internal/engine/event_payloads.go
use mirror_gha.Base.{if◌then◌else◌, Text, lit, text_eq, join, List, [], ◌∷◌, ◌++◌}

abbrev zero_sha : Text
zero_sha = lit "0000000000000000000000000000000000000000"

abbrev lines : List Text → Text
lines = join (10 ∷ [])

abbrev push_payload : Text
push_payload = lines (
    lit "{"
    ∷ lit "  \"ref\": \"refs/heads/main\","
    ∷ (lit "  \"before\": \"" ++ zero_sha ++ lit "\",")
    ∷ (lit "  \"after\": \"" ++ zero_sha ++ lit "\",")
    ∷ lit "  \"repository\": {\"full_name\": \"local/mirror-gha\", \"default_branch\": \"main\"},"
    ∷ lit "  \"pusher\": {\"name\": \"local\", \"email\": \"local@example.com\"},"
    ∷ (lit "  \"head_commit\": {\"id\": \""
        ++ zero_sha
        ++ lit "\", \"message\": \"local test run\", \"author\": {\"name\": \"local\"}}")
    ∷ lit "}"
    ∷ [])

abbrev pull_request_payload : Text
pull_request_payload = lines (
    lit "{"
    ∷ lit "  \"action\": \"opened\","
    ∷ lit "  \"number\": 1,"
    ∷ lit "  \"pull_request\": {"
    ∷ lit "    \"number\": 1,"
    ∷ lit "    \"title\": \"Local test pull request\","
    ∷ lit "    \"state\": \"open\","
    ∷ lit "    \"draft\": false,"
    ∷ lit "    \"merged\": false,"
    ∷ (lit "    \"head\": {\"ref\": \"feature-branch\", \"sha\": \"" ++ zero_sha ++ lit "\"},")
    ∷ (lit "    \"base\": {\"ref\": \"main\", \"sha\": \"" ++ zero_sha ++ lit "\"},")
    ∷ lit "    \"user\": {\"login\": \"local\"}"
    ∷ lit "  },"
    ∷ lit "  \"repository\": {\"full_name\": \"local/mirror-gha\"}"
    ∷ lit "}"
    ∷ [])

abbrev workflow_dispatch_payload : Text
workflow_dispatch_payload =
    lit
      "{\"inputs\": {}, \"ref\": \"refs/heads/main\", \"repository\": {\"full_name\": \"local/mirror-gha\"}}"

abbrev workflow_call_payload : Text
workflow_call_payload = lit "{\"inputs\": {}}"

abbrev repository_dispatch_payload : Text
repository_dispatch_payload =
    lit
      "{\"action\": \"mirror-local-event\", \"client_payload\": {}, \"repository\": {\"full_name\": \"local/mirror-gha\"}}"

abbrev workflow_run_payload : Text
workflow_run_payload = lines (
    lit "{"
    ∷ lit "  \"action\": \"completed\","
    ∷ lit "  \"workflow_run\": {"
    ∷ lit "    \"id\": 1,"
    ∷ lit "    \"name\": \"local test run\","
    ∷ lit "    \"head_branch\": \"main\","
    ∷ (lit "    \"head_sha\": \"" ++ zero_sha ++ lit "\",")
    ∷ lit "    \"status\": \"completed\","
    ∷ lit "    \"conclusion\": \"success\","
    ∷ lit "    \"event\": \"push\""
    ∷ lit "  }"
    ∷ lit "}"
    ∷ [])

-- `DefaultEventPayload`
unfoldable pub default_event_payload : Text → Text
unfolding text_eq join
default_event_payload name =
    if text_eq name (lit "push")
    then push_payload
    else if text_eq name (lit "pull_request")
    then pull_request_payload
    else if text_eq name (lit "workflow_dispatch")
    then workflow_dispatch_payload
    else if text_eq name (lit "workflow_call")
    then workflow_call_payload
    else if text_eq name (lit "repository_dispatch")
    then repository_dispatch_payload
    else if text_eq name (lit "workflow_run")
    then workflow_run_payload
    else lit "{}"
