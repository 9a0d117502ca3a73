-- ===== src/Lib.antt =====
-- The GitLab Copilot agent: what it does between a trigger and the comments on a merge request.
--
-- A trigger (the webhook of src/gitlab_copilot_agent/gitlab_webhook.py, or a poller) checks a
-- request, asks the deduplication service whether the work was done, and queues an event. The
-- event runs through a pipeline of four stages; the review pipeline ends in the comment poster,
-- which writes discussions, notes and resolutions to GitLab, and a summary with a hidden marker
-- that the next review starts from. Locks per repository keep the coding and discussion tasks
-- apart.
--
-- Paths below are within src/gitlab_copilot_agent of the repository.
--
-- - Prelude: numbers, texts as lists of code points, lists, Boolean tests, integers.
-- - Effects: Python's exceptions and state: a coroutine is a function from a state to a result and
--   a state, and what it wrote before it raised stays written.
-- - Concurrency: concurrency/protocols.py and concurrency/memory.py. MemoryDedup is a list of
--   keys, oldest first; MemoryQueue the task queue and the result store; MemoryLock is a step
--   relation over the turns of the event loop, with the lock objects of asyncio and their queues
--   of waiters. The bounds are any numbers, the default 10,000 for the local cache.
-- - Dedup: dedup.py, over any implementation of the store's protocol.
-- - Gitlab, Discussions: the calls of gitlab_client.py that write, and the threads that it reads.
-- - GitlabClient, Json: the HTTP client of gitlab_client.py: requests with their retries, pages,
--   and what it reads. What GitLab answers is any function of the requests and pauses so far. The
--   pages run on fuel, of which one page for each full hundred, and one, are enough.
-- - Azure: azure_storage.py, over an SDK whose answers are any function of the steps so far;
--   Azure.TableDedup over any table.
-- - Git: git/validation.py, the check of patches, and git/clone.py with its retries.
-- - Credentials: credential_registry.py. ReviewParser: comment_parser.py.
-- - Incremental: incremental.py; its two regular expressions are written out as functions on
--   texts.
-- - Comments: comment_poster.py. Comments.Hunks reads diffs, Comments.Post posts; GitLab is any
--   function from the calls made so far and the new call to a result, so it may fail at any of
--   them.
-- - Pipeline: the runner of pipeline.py, over any five stages; ErrorMessages: error_messages.py.
-- - Events, Mentions, Registry, Webhook: events.py, the mention pattern, project_registry.py, and
--   gitlab_webhook.py with the payloads of models.py.
-- - Poller: gitlab_poller.py. Poller.Notes reads the threads of open MRs; Poller.Cycle is a poll
--   over all projects, with its watermarks and back-off, over any way to process an MR and its
--   notes; Poller.Lost puts the two together.
-- - Sanitizer: prompt_sanitizer.py.
-- - Config, Mapping: config_v2.py and mapping_models.py.
-- - Outside: what the pipelines do with git, GitLab, the executor and the context files, as a log
--   of steps; each answer is any function of the log. Outside.Patches is coding_workflow.py.
-- - Threads, DiscussionPipeline: discussion_pipeline.py and discussion_engine.py.
-- - ReviewPipeline: review_pipeline.py; the parser of the answer, which may raise, and the texts of
--   the prompt are parameters, which ReviewEngine (review_engine.py) fills in, with the parser of
--   ReviewParser; its regular expressions are given.
-- - Tasks, RemoteExecutor: task_executor.py and remote_executor.py. The polls run on fuel: one
--   round for each interval in the job's timeout, and two.
-- - Effects.Ensures, Pipeline.Keeps and Outside.Keeps: what a coroutine, a run and a step keep.
-- - CodingPipeline, JiraPoller: coding_pipeline.py with coding_engine.py and jira_models.py, and
--   jira_poller.py. JiraPoller.Transient puts the poller, the runner and the pipeline together.
-- - Tests: the theorems at concrete inputs.
--
-- Loops over lists are structural recursion; fuel is needed only by the polls of the remote
-- executor, the pages of the client and the printing of a decimal number, whose fuel is one more
-- than the number. Numbers that Python keeps as unbounded integers are natural numbers, or
-- integers where a comment's line may be negative.
--
-- Given, as parameters: JSON and pydantic's validation, the answers of GitLab, `str.upper`,
-- `str.lower`, `urlparse`, the regular expressions and the word characters of `re`. Log lines,
-- metrics, spans and clocks are left out. Not modelled: telemetry, settings from the environment,
-- the application's wiring, the sessions with the Copilot CLI, what git, httpx and the Azure SDK
-- do themselves, and task_runner.py, a process around the engines.
pub mod Azure
pub mod CodingPipeline
pub mod Comments
pub mod Concurrency
pub mod Config
pub mod Credentials
pub mod Dedup
pub mod DiscussionPipeline
pub mod Discussions
pub mod Effects
pub mod ErrorMessages
pub mod Events
pub mod Git
pub mod Gitlab
pub mod GitlabClient
pub mod Incremental
pub mod JiraPoller
pub mod Json
pub mod Mapping
pub mod Mentions
pub mod Outside
pub mod Pipeline
pub mod Poller
pub mod Prelude
pub mod Registry
pub mod RemoteExecutor
pub mod ReviewEngine
pub mod ReviewParser
pub mod ReviewPipeline
pub mod Sanitizer
pub mod Tasks
pub mod Tests
pub mod Threads
pub mod Webhook
