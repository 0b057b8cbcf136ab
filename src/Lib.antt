-- ===== src/Lib.antt =====
-- Certguard's browser side: a model of the scripts under internal/server/web/static, and what holds
-- of them.
--
-- Base holds the shared vocabulary: tests, lists with native lengths, whole numbers, the stable sort
-- of `Array.prototype.sort`, what holds of pairs that pass a filter, and lists up to their order.
--
-- Grid models internal/server/web/static/widgets.js, `initWidgetGrid`: cards that own rectangles of
-- a grid with four columns.
--   Grid.Rect      the constants, `overlaps`, and the numbers that `setRect` stores (`normalise`)
--   Grid.Card      a card's attributes; `spanOf` to `rectOf`, `setRect`, `contentRows`
--   Grid.Resolve   `resolve`: what a dropped card lands on is pushed down. Its fuel is the source's
--                  own `guard`; that the guard is always enough is not shown, and the theorem on a
--                  drop has the rest before the end as a hypothesis
--   Grid.Columns   the array of column bottoms
--   Grid.Compact   `compact`, the Tidy button
--   Grid.Place     `placeUnplaced` and `placeIntoFreeSpace`
--   Grid.Storage   `save`, `apply` and `migrate`, over the parsed object of the browser's storage
--   Grid.Layout    `metrics`, `layout`, `cellAt` and the resize computations; pixels are natural
--                  numbers and a float quotient by the number of columns is kept exact
--   Grid.Actions   the handlers: each drag at its release, double click, hide, add, tidy, and the
--                  handle that `initWidgetGrid` returns
-- A handler is a function on the page: the cards in document order, what is stored, and the styles.
-- A card is found by its id; that ids are unique in a document is a hypothesis where it matters.
-- The DOM, pointer events before the release, animation frames and auto-scroll are not modelled.
--
-- Common models parts of internal/server/web/static/common.js: Common.Expiry (`expiryLevel`, and
-- the inventory's `bucket`), Common.Escape (`escapeHtml`), Common.Chain (`chainRisk`, with
-- `Date.parse` as a parameter), Common.Whoami (the vault's flags in `loadWhoami`), Common.Ago
-- (`relTime`) and Common.Colour (`hexA`).
--
-- Inventory models internal/server/web/static/inventory.js. Strings are lists of UTF-16 code units.
--   Inventory.Items    entries, categories, kinds, problems and targets
--   Inventory.Filter   the filter state with its listeners, the comparator, `visibleItems`; the
--                      children have the tiles, the clicks and the order
--   Inventory.Notes    the notes field and `saveNotes`
--   Inventory.Csv      `exportCsv`; Inventory.Csv.Reader is a reader of such text
-- `toLowerCase`, `localeCompare`, dates and number formatting are the browser's: a record of
-- functions that the definitions take. Rows, detail panels and the download are not modelled.
--
-- Arranger models internal/server/web/static/layout-editor.js: Arranger itself has the tiles, the
-- drags, the keys and the calls on the grid's handle, Arranger.Snapping the magnetic edges and
-- Arranger.Drag the bounds of the drags. The pointer comes in as the rounded cells of `onMove`.
--
-- Vault models internal/server/web/static/zk.js: the data key in memory and the keyring's calls.
-- The browser's crypto and encodings are a record of functions (`Crypto`); what they document
-- (`CryptoLaws`, of Vault.Doors) is a hypothesis where it is used. Random bytes are arguments.
--
-- Coverage models internal/server/web/static/coverage.js: the rows, the filter, and the sections of
-- the page in their order. Coverage.Groups has what the grouping keeps, and Coverage.Checks the tiles
-- and the checks of the certificates, one after the other.
--
-- VaultUi models internal/server/web/static/vault-ui.js and `explain` of
-- internal/server/web/static/webauthn.js: the lock button, the unlock dialog and the reveal of a
-- secret, over Vault. What the server, the security key and the clipboard answer are arguments of
-- the handlers; VaultUi.Steps has the pages that any sequence of handlers reaches. The timer that
-- hides a secret is a refresh that may come at any time; the clicks that close the dialog are not
-- modelled. Every answer goes through `api` of common.js, which throws on a 401 (`through_api`).
--
-- Nav models internal/server/web/static/nav.js: the menu's listeners (Nav.Phases has their
-- contract) and the links that pages add.
--
-- Dashboard models parts of internal/server/web/static/dashboard.js.
--   Dashboard.Tracked   the list: search, order and pages of twelve
--   Dashboard.Edit      the dialog that edits an entry and the form that adds one, with the requests
--                       that they send
--   Dashboard.Found     the certificates and domains that a scan turns up, and adding those picked
--   Dashboard.Calendar  moving and zooming, and which entries stand in which cell; the browser's
--                       dates are a record of functions, with what they document as a hypothesis,
--                       for the years from 100 to 200000
--   Dashboard.Swipe     the gestures on the rows, each with its own state; how wide a row's
--                       actions are is a function
--   Dashboard.Cards     the labels of errors and the card of problems; Dashboard.Health what expires
--                       soon, the endpoints' health and durations; Dashboard.Alerts the preview of
--                       the alerts
-- The HTML of rows, cells and popups, the forms that scan, and the cards of issuers, audit and
-- renewals are not modelled.
--
-- Status, Issuers and Activity model internal/server/web/static/status.js,
-- internal/server/web/static/issuers.js and internal/server/web/static/activity.js: the headline of
-- the public page, the groups of entries by whom they depend on, and the log with its filter, its
-- tiles and its days.
--
-- Timeline models internal/server/web/static/timeline.js: the twelve months with their numbers and
-- cells, the open day and its card, and turning the pages. What is on the page is recomputed from
-- the state by every handler, as the code does; the months run over the year as in `Date.UTC`.
--
-- Prefs models internal/server/web/static/prefs-init.js and internal/server/web/static/pages.js:
-- the redirect from "/" with its list of pages, the theme and the navigation style.
--
-- Not modelled: the server and its storage (another language), the vendored library, the
-- settings, the root page and the parser of certificate files (not yet), and what only paints.
pub mod Activity
pub mod Arranger
pub mod Base
pub mod Common
pub mod Coverage
pub mod Dashboard
pub mod Grid
pub mod Inventory
pub mod Issuers
pub mod Nav
pub mod Prefs
pub mod Status
pub mod Timeline
pub mod Vault
pub mod VaultUi
