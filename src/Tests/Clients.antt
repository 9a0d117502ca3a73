-- ===== src/Tests/Clients.antt =====
-- Instances of the theorems on gitlab_client.py and git.
use gitlab_copilot_agent.Prelude.{
  ℕ, zero, suc, ◌+◌, ◌-◌, ◌<◌, nat_eq, Text, text_eq, codes, show, value, value-show, length,
  replicate, length-replicate, contains, list_beq, List, [], ◌∷◌, ◌++◌, Option, none, some, true,
  false, if◌then◌else◌, ◌≡◌, refl, ap, ◌⊎◌, arith, ltb,
}
use gitlab_copilot_agent.Effects.{then_result, Result, ok}
use gitlab_copilot_agent.Concurrency.OrderedDict.{lookup, lookup-insert}
use gitlab_copilot_agent.Gitlab.{Call, post_mr_comment}
use gitlab_copilot_agent.Json.{Json, null}
use gitlab_copilot_agent.GitlabClient.{
  get, Request, Response, Http, sent, request, is_retryable, can_retry, is_safe,
}
use gitlab_copilot_agent.GitlabClient.Calls.{perform_call, request_of, merge_request_request}
use gitlab_copilot_agent.GitlabClient.Once.{sends, done, verdict, iid_of, writes-once}
use gitlab_copilot_agent.GitlabClient.Reads.{Conversions, create_merge_request}
use gitlab_copilot_agent.GitlabClient.Recover.{IsServer, IsFinal, busy, request-recovers}
use gitlab_copilot_agent.GitlabClient.Pages.{page_params, page_request, paginate}
use gitlab_copilot_agent.GitlabClient.Pages.Exact.{page_after, IsListed, paginate-listed}
use gitlab_copilot_agent.Git.{
  Url, Platform, is_given, allow_http, validate_clone_url, validate_clone_url_host,
}
use gitlab_copilot_agent.Git.Accepts.{IsPlain, accepted_url_is_safe}
use gitlab_copilot_agent.Git.Clone.{Git, CloneRequest, exited, timed_out, git_clone}
use gitlab_copilot_agent.Git.Clone.Leaves.{Leaves, git_clone-Leaves}

abbrev fine : Response
fine = record { status_code = 200; retry_after = none; json = ok null }

abbrev unavailable : Response
unavailable = record { status_code = 503; retry_after = some (codes "2"); json = ok null }

-- The first answer is a 503, and the others are accepted.
abbrev answers : ℕ → Result Response
answers zero = ok unavailable
answers (suc n) = ok fine

abbrev http : Http
http = record {
  answer = λ log r. answers (sends log);
  pause = λ log. ok tt;
  raise_for_status = λ resp. ok tt;
  is_float = λ s. true;
}

abbrev hello : Call
hello = post_mr_comment 1 2 (codes "Hello")

abbrev convert : Conversions
convert = record { int_of = λ value. ok 7; text_of = λ value. []; quote = λ s. s }

abbrev merge_request : Request
merge_request = merge_request_request 1 (codes "agent") (codes "main") (codes "Fix") (codes "Done.")

writes-once_example :
    ((perform_call http hello []).1 ≡ [] ++ sent (request_of hello) ∷ [])
    × ((perform_call http hello []).0 ≡ done (verdict http (http.answer [] (request_of hello))))
    × (create_merge_request http convert 1
          (codes "agent")
          (codes "main")
          (codes "Fix")
          (codes "Done.")
          []
        ≡ (
          then_result (verdict http (http.answer [] merge_request)) (iid_of convert),
          [] ++ sent merge_request ∷ [],
        ))
writes-once_example =
    writes-once http convert hello 1 (codes "agent") (codes "main") (codes "Fix") (codes "Done.") []

abbrev user_request : Request
user_request = record { method = get; path = codes "/user"; json = null; params = [] }

server : IsServer http user_request answers
server = record { answered = λ log. refl; paused = λ log. refl }

fine-IsFinal : IsFinal http fine
unfolding is_retryable
fine-IsFinal = record { not_retryable = refl; accepted = refl }

retried : can_retry none get ≡ true
unfolding can_retry is_safe
retried = refl

unavailable-is_retryable : is_retryable unavailable ≡ true
unfolding is_retryable
unavailable-is_retryable = refl

second_answer : answers (sends [] + 1) ≡ ok fine
unfolding sends
second_answer = refl

request-recovers_example :
    ((request http none user_request []).0 ≡ ok fine)
    × (sends (request http none user_request []).1 ≡ sends [] + 2)
unfolding sends
request-recovers_example =
    request-recovers http user_request server none 1 [] fine retried (omega arith)
      (λ i small. rw (first_of i small) (busy unavailable-is_retryable)) second_answer fine-IsFinal
  where
    first_of : (i : ℕ) → i < 1 → sends [] + i ≡ 0
    first_of i small = omega arith

-- A listing of one item; a page is marked by its number.
abbrev listing : List Json
listing = null ∷ []

abbrev page_at : ℕ → Response
page_at p = record { status_code = 200; retry_after = some (replicate p 0); json = ok null }

page_number : Option Text → ℕ
page_number none = 0
page_number (some text) = value text - 1

asked_page : Request → Result Response
unfolding page_number
asked_page r = ok (page_at (page_number (lookup (codes "page") r.params)))

marked_page : Option Text → ℕ
marked_page none = 0
marked_page (some mark) = length mark

page_items_of : Response → Result (List Json)
unfolding marked_page
page_items_of resp = ok (page_after listing (marked_page resp.retry_after))

abbrev paged : Http
paged = record {
  answer = λ log r. asked_page r;
  pause = λ log. ok tt;
  raise_for_status = λ resp. ok tt;
  is_float = λ s. true;
}

less_one : (p : ℕ) → suc p - 1 ≡ p
less_one p = omega arith

asked_page-page_request :
    (p : ℕ) → asked_page (page_request (codes "/mrs") [] (suc p)) ≡ ok (page_at p)
unfolding asked_page page_number page_request page_params list_beq
asked_page-page_request p =
    rw (lookup-insert (codes "page") (codes "page") (show (suc p)) _, value-show (suc p))
      (ap (λ (n : ℕ). ok (page_at n)) (less_one p))

page_at-IsFinal : (p : ℕ) → IsFinal paged (page_at p)
unfolding is_retryable
page_at-IsFinal p = record { not_retryable = refl; accepted = refl }

listing-IsListed : IsListed paged page_items_of (codes "/mrs") [] listing
unfolding page_items_of marked_page
listing-IsListed = record {
  page = page_at;
  answered = λ p log. asked_page-page_request p;
  final = page_at-IsFinal;
  read = λ p. rw (length-replicate {A = ℕ} p 0) refl;
}

paginate-listed_example :
    (paginate paged page_items_of 1 (codes "/mrs") [] []).0 ≡ ok (some listing)
paginate-listed_example =
    paginate-listed paged page_items_of (codes "/mrs") [] listing listing-IsListed 1 []
      (omega arith)

abbrev project_url : Url
project_url = record {
  scheme = codes "https";
  netloc = codes "gitlab.example";
  path = codes "/g/p.git";
  username = none;
  password = none;
  hostname = some (codes "gitlab.example");
  port = ok none;
}

abbrev platform : Platform
platform = record {
  urlparse = λ url. ok project_url;
  lower = λ s. s;
  search = λ p s. false;
  allow_http_clone = [];
}

abbrev clone_request : CloneRequest
clone_request = record {
  clone_url = codes "https://gitlab.example/g/p.git";
  branch = codes "main";
  token = codes "t";
  max_retries = 3;
  backoff_base = 5;
}

-- The first run is timed out, and the second ends well.
abbrev git : Git
git = record {
  mkdtemp = λ log. ok (codes "/tmp/" ++ show (length log));
  run = λ log. ok (if ltb (length log) 3 then timed_out else exited 0 (ok []));
  sleep = λ log. ok tt;
}

git_clone-Leaves_example : Leaves git [] (git_clone platform git clone_request [])
git_clone-Leaves_example = git_clone-Leaves platform git clone_request []

url_is_valid : validate_clone_url platform clone_request.clone_url ≡ ok tt
unfolding validate_clone_url list_beq allow_http contains is_given
url_is_valid = refl

host_is_valid :
    validate_clone_url_host platform clone_request.clone_url (codes "https://gitlab.example")
    ≡ ok tt
unfolding validate_clone_url_host list_beq
host_is_valid = refl

accepted_url_is_safe_example :
    (parsed : Url) × (gitlab : Url) × (platform.urlparse clone_request.clone_url ≡ ok parsed)
    × (platform.urlparse (codes "https://gitlab.example") ≡ ok gitlab)
    × IsPlain parsed
    × ((parsed.scheme ≡ codes "https")
        ⊎ ((parsed.scheme ≡ codes "http") × (allow_http platform ≡ true)))
    × (platform.lower parsed.netloc ≡ platform.lower gitlab.netloc)
accepted_url_is_safe_example =
    accepted_url_is_safe platform clone_request.clone_url (codes "https://gitlab.example")
      url_is_valid host_is_valid
