-- ===== src/Lib.antt =====
-- FileFin, a server for a film and series library kept in folders: models of the parts that decide
-- something, and what is proved of them.
--
-- The parts and how they meet. A folder of the library has a metadata file (internal/importer). Each
-- metadata source contributes a snapshot to it, and internal/sources merges the snapshots into the
-- item's own fields by a table of policies, the pins of the item and the rules of the library; when
-- the rules change, internal/server/merge.go merges every item again in the background. A player
-- reports positions, which internal/state turns into a user's pointer, watched flag and view of a
-- folder. A watch list from elsewhere is paired with the library by internal/watchlist. Logins pass
-- through the throttle of internal/server/loginlimit.go to the accounts and sessions of
-- internal/server/auth.go and users.go. Background agents take their work from the queues of
-- internal/db, whose lengths the tracker of internal/server/activity.go shows as progress; the sweep
-- of internal/server/discovery.go fills the queues. A file that a browser plays is served as it is;
-- any other goes through internal/transcode, in segments that an encoder writes while they are
-- requested, unless internal/optimize has made a copy beside it. An import row is preselected into a
-- category of internal/library by internal/server/importpredict.go. A new copy of a film takes the place
-- of the old file by internal/server/importreplace.go, under a name of internal/mediafmt, and its
-- subtitles are rendered by internal/subtitle.
--
-- The files.
--   Prelude      the shared names: Go strings as lists of code points, Go maps as association lists,
--                `int` where it can be negative, Boolean tests, lists over the native numbers
--   Strings      the functions of Go's strings, strconv and sort that the sources use, written out
--   LoginLimit   internal/server/loginlimit.go: one function for each of allowed, lockRemaining, fail,
--                success, bumpAttempt, prune and attemptStale; the state is a record of the two maps.
--                Refines compares it with a limiter that never prunes, Lockout says when it locks;
--                Source is clientIP and cookieSecure, over a parameter for Go's package net
--   Accounts     internal/server/auth.go, users.go and tokens.go over the types of
--                internal/config/config.go: the session store, the guards and the bearer tokens in
--                Accounts, handleLogin in Login, handleUpdateUser in Users, the tokens of a user in
--                Tokens; Throttled is about the login and the throttle together, Admins and Blocking
--                about the change of an account, Bearer about whom a token stands for
--   Discovery    internal/server/discovery.go: the sweep tracker, the pass over the items and the
--                handlers; Guard is the tracker with its callers interleaved, as a step relation;
--                Reconcile is reconcileDiff and reconcileItem of internal/server/scan.go, Matches says
--                what the cache holds after the one and Lost what a failed write does to the other
--   Transcode    internal/transcode/hls.go: the grid and remux segments, the playlist, the segments'
--                names and the decision to relaunch the encoder (Playlist, Names, Reposition); Sessions
--                is the table of sessions with what they hold, each behind a pointer, since a request
--                may go on with one that has left the table; Held and Leaks are about its steps in any
--                order
--   Playable     internal/transcode/transcode.go and probe.go: what plays as it is, and the sibling
--   Optimize     internal/optimize/optimize.go: the candidates (Choice) and the progress (Percent)
--   Replace      internal/server/importreplace.go: the superseded files (Superseded), what is removed
--                from the disk (Disk) and the formats that stay known (Probed)
--   Library      internal/library/library.go: the changes of a category on disk, with Markings for the
--                markers; Capped and Learning are about the cap on learned markers, Kept about every
--                change
--   Predict      internal/server/importpredict.go and importseeds.go: the predictor and its votes in
--                Predict, the words of a name in Text, the shipped markers in Seeds; Words says when a
--                word is mentioned, Votes what a learned marker votes for, Guess what may be guessed
--   Recognize    internal/recognize/sanity.go: the checks (Contiguous) and the choice among
--                the candidates (Ranking)
--   Formats      internal/mediafmt/mediafmt.go: the names (Safe) and the part read back (Parts)
--   Subtitle     internal/subtitle/subtitle.go: languages and names; Srt and Ass render WebVTT, Cues
--                and Plain are about the cues and their text
--   State        internal/state/engine.go and state.go: Apply and View, and Refs in
--                a file of its name. Forward is about the pointer, Watched about the watched flags
--   Sources      internal/sources (fields.go, compare.go, resolve.go), with NameKey of
--                internal/people/people.go and the types of internal/importer/importer.go. Field,
--                Compare and Resolve hold the definitions, one per Go function, the long
--                resolveField in steps (gather, class_of, first_for, decide, write); the other files
--                prove what a second merge does (Clean, Values, Places, Stored, Decisions, Unmoved,
--                Settled, Ratings, Idempotent), what a merge leaves alone (Pins; Edits has
--                PinEdits), and that the comparison has no direction (Symmetric)
--   Merge        internal/server/merge.go: Reapply is reapplyRules as a step relation; Apply is what
--                handleApplyMerge makes of the picks, with manualChoices, dropChoicesFor,
--                needsSnapshot and the OMDb budget
--   Queue        internal/db/taskqueue.go as functions of the table; Queues has the queues of
--                probe.go, thumbnail.go, people.go and tmdb.go beside it as instances of one interface;
--                Ownership and Oldest prove what a claim takes and who keeps it
--   Progress     internal/server/activity.go: the drain tracker and bytePercent
--   Watchlist    internal/watchlist/match.go: the matcher in Watchlist, normalize in Key,
--                levenshtein in Distance; Years, Preselected, Index and Order prove its properties
--   Tests        runs on concrete inputs
--
-- What stands for what. A time is the number of nanoseconds since Go's zero time, and 0 is the zero
-- time that IsZero tests. Strings are sequences of code points; invalid UTF-8 is not modelled. A nil map
-- or slice is an empty one. A range over a map follows the association list, except where a theorem
-- says it holds for every order. `int` is unbounded. The NFKD form and the Unicode tables of the
-- standard library and golang.org/x/text are the fields of the record Unicode, and what is used of
-- float64 is the fields of the records Floats and Ratios: definitions take them as parameters, and a
-- theorem that relies on them says so in its hypotheses. A duration is a
-- whole number of milliseconds, the precision of a playlist. bcrypt, SHA-256, random numbers, the
-- times of files and whether a file can be written or removed are parameters. Case is that of ASCII.
-- The mutex of a limiter, a session store or a tracker makes each of its operations one step. A handler
-- that locks more than once is several functions where another may come in between and a theorem is
-- about it (begin_login and finish_login, the four parts of ensure, the two of Segment);
-- handleUpdateUser, which drops the sessions after it has released the lock on the accounts, is one. The loops over digits of a number run on fuel that is the number itself plus
-- one, which is at least the number of its digits, and the search for a word on fuel that is the length
-- of the name plus one; all other loops follow a list.
--
-- Not modelled: most handlers and JSON views, the database but for four of its queues, the scanning
-- and copying of files, the start and the arguments of ffmpeg, the wait for a segment,
-- the clients of the metadata services, the regular expressions that read file names, and the browser
-- client. The labels and groups of the field table, which are only shown, are left out, and so are the
-- fields of the metadata file that the merge neither reads nor writes and those of an account that
-- only the views show.
pub mod Prelude
pub mod Accounts
pub mod Discovery
pub mod Formats
pub mod Library
pub mod LoginLimit
pub mod Merge
pub mod Optimize
pub mod Playable
pub mod Predict
pub mod Progress
pub mod Queue
pub mod Recognize
pub mod Replace
pub mod Sources
pub mod State
pub mod Strings
pub mod Subtitle
pub mod Tests
pub mod Transcode
pub mod Watchlist
