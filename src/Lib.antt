-- ===== src/Lib.antt =====
-- GitHub Stories: 24-hour Stories for GitHub accounts, with a Go API server, a media worker, a
-- PostgreSQL store, and a terminal client.
--
-- The parts that are modelled, and the files that model them:
-- - Terminal/Sanitize.antt: internal/terminal/sanitize.go. Everything that other people write passes
--   through `Sanitize` before the client prints it. A text is the list of its bytes, the loop over the
--   index `i` is a recursion on the bytes from `i` on. The UTF-8 coder of Go's standard library is
--   written out in Terminal/Sanitize/Utf8.antt, after its documented behaviour. `SanitizeTruncate`
--   measures cells with a package outside the repository and is left out.
-- - RateLimit.antt: internal/ratelimit/ratelimit.go, the token buckets in front of the API. A token is
--   `rule.per` units and time is counted in nanoseconds, so the fractions that the code keeps in
--   floating point are exact numbers here; the rounding of floats is not modelled. The map of buckets
--   is a function from keys, and time never runs backwards (`now - last` stops at 0).
-- - Domain.antt: internal/domain/domain.go, the types that the other parts share.
-- - Store/Social.antt: internal/store/graph.go and identity.go, the tables of accounts, follows with
--   their tombstones, mutes, blocks, hide rules and audience lists, and the follow import.
-- - Store/Accounts.antt: internal/store/identity.go and graph.go, suspensions, the moderator sync
--   and the members of audience lists. The database's `lower` is a parameter.
-- - Store/Visibility.antt: internal/store/visibility.go, the SQL fragment that every read of a Story
--   goes through.
-- - Store/Stories.antt: internal/store/story.go and jobs.go, the publication pipeline: an upload
--   intent, its finalization into an item and a media job, the leases of workers, the publication,
--   edits, deletion, expiry, abandoned uploads and the cleanup jobs. Store/Stories/Run.antt composes
--   all that change the tables into sequences of transactions, in any order.
-- - Store/Logins.antt: internal/store/session.go and device.go, sessions, OAuth flows, and the logins
--   of terminal clients.
-- - Store/Interact.antt: internal/store/interact.go, views, reactions, private replies and the events
--   of the inbox. Store/Interact/Unique.antt composes them into sequences.
-- - Store/Reports.antt and Store/Replays.antt: internal/store/moderation.go and idempotency.go, reports
--   with the actions that resolve them, and the stored responses of retried requests.
-- - Api.antt: internal/api, the handlers that call all of the above. A handler maps the tables and a
--   request to a failure, or to new tables and a response. Api/Stories.antt and Api/Interact.antt are handlers_stories.go,
--   Api/Media.antt handlers_media.go, Api/Graph.antt handlers_graph.go, Api/Moderation.antt
--   handlers_moderation.go, Api/Uploads.antt handlers_upload.go, and Api/Limits.antt
--   the rate limit of middleware.go. `uuid.Parse`, `strings.TrimSpace`, the object store and SHA-256 are
--   parameters, and the JSON decoder's outcome is an argument.
-- - Store/Feed.antt: internal/store/feed.go, the feed with its ranking, grouping and limit. Its child
--   Lookups is the author's sequence, the caller's own, the rings and the change token of the same file.
--   Api/Feed.antt is handlers_feed.go.
-- - Auth.antt: internal/auth/session.go and pending.go, the logins of terminals that a person approves in
--   a browser, over Store/Logins.antt. Api/Logins.antt is the part of handlers_auth.go that starts and polls
--   them and lists and ends sessions. Api/Callback.antt is where GitHub's answer leads a browser, with the
--   summary of internal/auth/import.go. GitHub's answers are arguments, and SHA-256 a parameter.
-- - Account.antt: internal/account/account.go, the pages of a signed-in person as what their templates
--   are given. Account/Samples.antt is the sample of logins in the link that an import ends at.
-- - Objects.antt: internal/objstore/keys.go, and Objects/Memory.antt with Objects/Ranges.antt memory.go, the
--   store in memory and its byte ranges.
-- - Worker.antt: internal/worker/media_loop.go, a job from its claim to its publication or failure, and
--   Worker/Loops.antt worker.go and cleanup_loop.go. What the processor, the downloads and the deletions
--   answer is part of a list of turns. Store/Purges.antt is the purges of internal/store/jobs.go.
-- - Tui.antt: internal/tui, the full-screen viewer. Tui/Update.antt and Tui/Messages.antt are update.go, Tui/Screen.antt the
--   graphics of view.go and run.go. A command that Bubble Tea runs later is a value. The scale of
--   terminal.FitCells and the success of a renderer are parameters.
-- - Media.antt: internal/media/probe.go, the signatures of accepted files and the scan that counts the
--   frames of a GIF. The scan's fuel is one more than the file's length, and each block takes a byte.
-- - Examples.antt: the general theorems at concrete data.
--
-- How the code is read. A table is the list of its rows, newest first. A statement's `WHERE` is a
-- Boolean test on rows, an `UPDATE` maps the rows that pass it, a `SELECT` of one row takes the
-- first. A UUID, a GitHub id, a time and a hash are numbers; times are in nanoseconds. `Clock.Now()`
-- and the ids that the database generates are arguments. An operation is one transaction: it
-- commits, or returns an error and changes nothing. `ErrNotFound` is the error `not_found`, and
-- `refused` any other error, of which the unique key of logins and the constraints behind a reaction
-- and a moderator's record are modelled, as are the foreign keys of follows and rules; a failure of
-- the database itself has no counterpart. Row locks have none either, since the transactions that
-- they order are the steps of a sequence. Where a property needs it, the primary key of a table is a
-- named condition (`IsKeyed`), and so is that the database does not hand out an id twice
-- (`IsFresh`). Columns that no modelled operation reads, such as `updated_at`, are left out.
--
-- Fuel is taken by `decimal`, whose number is fuel enough for its digits, and by the scan of a GIF. The
-- worker's loops take the list of their turns, what happens outside at each, and end with it when it is
-- too short. The other loops of the code end with their lists.
--
-- Not modelled: routing, headers, JSON, and the handlers of settings, audience lists and the device
-- grant (the rest of internal/api, internal/httpx, internal/cliapi), GitHub's API (internal/ghclient
-- and the rest of internal/auth), the decoding of images and video (the rest of internal/media,
-- internal/vidframes), the S3 backend of internal/objstore, credential files and keyrings
-- (internal/credstore), terminal graphics (the rest of internal/terminal), the text of the viewer's
-- frames, the templates of pages, configuration and the programs themselves (apps, cli). They are
-- input and output around the parts above, or calls of packages that are not part of the repository.
pub mod Prelude
pub mod Terminal
pub mod RateLimit
pub mod Domain
pub mod Store
pub mod Api
pub mod Tui
pub mod Media
pub mod Objects
pub mod Worker
pub mod Auth
pub mod Account
mod Examples
