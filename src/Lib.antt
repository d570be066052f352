-- ===== src/Lib.antt =====
-- USBI, a learning platform: its game engines, the levels that they run on, and the sessions, pages and
-- queue of events of its web client.
--
-- The program is a web client (frontend/) with its games in a package of their own
-- (frontend/packages/engine), the schema of stored levels (frontend/packages/schema) and a maker for
-- levels (frontend/src/features/content/maker). Each game is a class with a private state: a page
-- constructs it from a level, calls its methods, and is notified of new states. The development has
-- a module for each, whose state is a record and whose functions are the methods by the same names in
-- snake case; `run` or `play` in the module's children composes calls to whole games.
--
-- The files and what they model:
-- Puzzle: frontend/packages/engine/src/games/PuzzleEngine.ts. `generate_pieces` cuts the phrase
--   (`cut_phrase`) and shuffles it (`shuffle`, at most the 100 attempts of the source).
-- Trivia: frontend/packages/engine/src/games/TriviaEngine.ts. The interval and the delayed
--   transitions are fields of the state, and an event of `step` is a call or a callback of the
--   window, in any order.
-- FakeNews: frontend/packages/engine/src/games/FakeNewsEngine.ts.
-- Memory: frontend/packages/engine/src/games/MemoryEngine.ts and games/memory/MemoryPalette.ts.
--   Random indices and the colour generator, which computes in floating point, are parameters.
-- WordSearch: frontend/packages/engine/src/games/WordSearchEngine.ts. `try_word` has the 500
--   attempts of the source; Unicode normalisation is a parameter.
-- Crossword: frontend/packages/engine/src/games/CrosswordEngine.ts, the engine; Crossword.Layout
--   finds a place for a word and Crossword.Building builds the layout, whose maps from `x,y` keys are
--   lists of cells.
-- Snakes.BoardMap, Snakes.WeightedRandom, Snakes.Engine: the files of
--   frontend/packages/engine/src/games/snakes/. Each call takes its draws of `random()` as arguments.
-- Snakes.Layout: frontend/src/features/content/maker/snakesLayout.ts, with the 80 attempts of the
--   source for each link. Its counts reach the generator by the clamped sizes of the maker.
-- Snakes.Schema: frontend/packages/schema/snakes.ts; Snakes.Schema.Generated takes generated levels
--   through the schema to the configuration that
--   frontend/src/features/games/components/SnakeLadderGame.tsx gives the engine.
-- Snakes.Questions: the questions that the page SnakeLadderGame.tsx asks before a roll.
-- WordSearch.Scene: frontend/src/features/games/WordSearchScene.ts, selecting letters by the pointer or
--   the keyboard, on top of the engine.
-- Sync: frontend/src/lib/syncEngine.ts, with the stores that it changes (frontend/src/stores/); the
--   desktop process, the server and the network are an environment. Two more attempts may follow a
--   first one. Sync.Queue is frontend/src/lib/localSyncQueue.ts, whose table is part of the state of the
--   environment.
-- Session: frontend/src/stores/useAuthStore.ts, frontend/src/lib/secureSession.ts and
--   frontend/src/lib/apiClient.ts. `api_client` has fuel for nested calls; two are enough. Session.Pages
--   has the handlers of the login, dashboard and profile pages.
-- Content: frontend/src/features/content/types.ts, the normalisers of stored content, over the JSON
--   values of Content.Json.
-- Levels.Official: frontend/src/features/content/OfficialLevelPage.tsx, where a finished level meets the
--   session and the queue. Levels.Local: the levels in the browser's storage, as the dashboard, the
--   maker and the local level page change and read them.
-- Settings: frontend/src/stores/useSettingsStore.ts and useGameStore.ts.
-- Rng: the linear congruential generator that PuzzleEngine.ts and WordSearchEngine.ts share.
-- Prelude: names passed on from the libraries, and helpers: event listeners (Channel), swaps,
--   sorting, sets, texts, integers.
-- Each component's child modules hold its proofs, named for what they are about, and `Examples` the
-- concrete runs.
--
-- Numbers are natural numbers or integers. The generator's state stays below 233280, and its products
-- are exact in double precision, as is the floor that `pick` takes for ranges of at most 44. Loops
-- are structural, or run for the number of attempts that the source itself bounds them by.
--
-- Not modelled: rendering, routing and animation; the registration, administration and data-rights
-- pages; the templates of the editor; what the declarations of the schemas mean to the library zod, whose
-- parsers are parameters; the desktop shell (Rust) and the backend (Go).
pub mod Prelude
pub mod Rng
pub mod Puzzle
pub mod Trivia
pub mod FakeNews
pub mod Memory
pub mod WordSearch
pub mod Crossword
pub mod Snakes
pub mod Sync
pub mod Session
pub mod Content
pub mod Levels
pub mod Settings
