-- ===== src/Lib.antt =====
-- arko: a desktop client for Matrix. Its Go code keeps a tree of messages for each room, sessions in
-- the keyring of the system, and pages on which a device is verified.
--
-- The parts and where they are modelled (paths from the repository's root):
--   Base            shared names; Go's map with text keys as a list of entries (Base/Assoc); an
--                   interface of xsync.Map (Base/SyncMap)
--   Models          internal/models/models.go; the order of messages (Models/Order) and sorted lists
--                   of them (Models/Sorted), the abstract view of the tree
--   Cache           internal/cache/cache.go: Get as atomic steps, of which other calls may come between
--   Matrix          internal/matrix: the data of events (Event), the interface of the ordered
--                   container (BTree), ids (Ids, helpers.go); message_tree.go in Tree with
--                   Tree/Convert, Tree/Listen and Tree/Load, and its history
--                   page by page in Tree/Scroll and Tree/Past; verification.go and txn_store.go in
--                   Verification and Verification/Calls; refresh.go in Refresh; manager.go in Manager;
--                   session.go in Manager (NewMatrixSession), Verified (IsVerified), Trees (the trees
--                   of the rooms and the listeners of the sync) and Typing, with typing.go;
--                   key_backup.go in KeyBackup; dm.go and the direct messages of rooms.go in Direct;
--                   the rest of rooms.go, create.go and the handlers of the sync that invalidate
--                   caches in Rooms
--   Session         internal/session/session.go, over interfaces of go-keyring and encoding/json
--   Handlers        internal/handlers/verify*.go: where a request to a verification page ends
--                   (Verify, Pages); internal/middleware: the session of a request, and which
--                   requests pass (Auth); login.go (Login); service/friends.go and handlers/dm.go
--                   (Friends); ws.go (Socket), media.go (Media), and the verification events
--                   that service/verify.go sends to the browsers (Watch)
--   Chat            internal/service/chat.go: the opening of a room (Open), and what its listener
--                   sends to the pages, as patches of their list of messages (Follow, Echo, Regroup);
--                   the typing indicator (Typing); components/ui/message_bubble.templ, by its
--                   generated Go code: the list of a page that is opened (Page with
--                   Page/Listing), and a page that stays open (Live)
--   Previews        internal/url_previews: the links of a text (Extract, Links) and the preview that
--                   is read from a page (Embed, Meta, Description,
--                   Page)
--   Hub             internal/ws/hub.go and client.go: the websocket clients and their queues
--
-- How they interact: the sync hands events to the receiver of each open room's tree (`receive`),
-- the user's messages go in by `send_message` under a nonce, pages of history by
-- `load_next_messages`, and the embeds of a message by `fetch_and_apply_embeds`, which reads
-- through the cache. `Tree.Run` has all of these as actions, in any order. The pages read the state
-- that the verification callbacks write (`Verification.Calls`). `Matrix.Manager` starts sessions
-- from the store of `Session`, with the refresh of `Matrix.Refresh` and the keys of
-- `Matrix.KeyBackup`, and the handlers of `Handlers.Login` call it. A page opens a room through
-- `Chat.Open`, on the trees of `Matrix.Trees`; `Chat.Follow` puts the events of `Matrix.Tree` and
-- the patches of a page together, over the list operations of `Chat.Moves`, and `Chat.Live` follows
-- a page that stays open. The messages of a websocket go through `Handlers.Socket` to the trees and
-- to the rooms that `Hub` keeps for each client. `Matrix.Verified`, `Matrix.Direct` and
-- `Matrix.Rooms` read through `Cache`, which the sync invalidates.
--
-- Correspondence: a Go method is the function of its name in snake_case, on the record of its state,
-- which it returns anew; a pointer that is nil is `none`, and a panic is a value of the result. Every
-- function runs under the locks that the source takes; what a goroutine does later is an action of its
-- own. The state of a tree has ghost lists: `offered` (events given to the listener) and `embed_jobs`.
--
-- Bounds: instants and ids are unbounded numbers and texts; the hash of ids wraps at 32 and 64 bits,
-- and sixteen digits print 64 bits. `browse` follows four redirects, which is enough for every page.
-- A backed-up session's index is cut to 32 bits, and durations are int64 numbers of nanoseconds whose
-- product wraps at 64 bits.
--
-- Not modelled: the answers of mautrix, of the network and of the keyring, which are arguments; the
-- markup of the templates; the single sign-on, the pumps of a websocket, the parsers
-- of HTML and of addresses, native bindings and start-up, which are input and output; the aliases of a space; the
-- error codes of internal/errors; the windows of the webview; handlers that only pass a request on to
-- a service.
pub mod Base
pub mod Models
pub mod Cache
pub mod Chat
pub mod Handlers
pub mod Hub
pub mod Matrix
pub mod Previews
pub mod Session
