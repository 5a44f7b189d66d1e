-- ===== src/Lib.antt =====
-- A verification library for the web application of the Mattermost voices plugin: 1:1 video and audio
-- calls and voice rooms over a signalling hub of the plugin's server.
--
-- The parts of the program, and the files that model them:
--
--   Call         the 1:1 call. Call/Session is webapp/src/utils/callSession.js (class CallSession):
--                the record CallSession is its fields, and start, transition, begin_connecting,
--                mark_connected, fail, track_hub, track_swarm, set_stream, set_peer,
--                release_resources and end_session are its methods. Call/Slice and Call/Reducers are
--                webapp/src/reducers/index.js: the record Slice has one field for each key, and
--                `reduce` applies each reducer. Call/Listeners is
--                webapp/src/utils/outgoingDeclineListen.js and incomingCancelListen.js.
--                Call/World, Call/Ending, Call/Placing, Call/Answering and Call/Sharing are the
--                thunks of webapp/src/actions/index.js (makeVideoCall, receiveVideoCall,
--                listenVideoCall, listenAccept, acceptCall, rejectCall, endCall, audioToggle,
--                videoToggle, captureAndShareMedia) with
--                webapp/src/utils/authorizedCallInvite.js. Call/Steps has the events of a page, with
--                the buttons of
--                webapp/src/components/modals/start_video_call/start_video_call.jsx.
--   Signal       webapp/src/utils/pluginSignalHub.js, with the envelope of the publish handler in
--                server/signal_handlers.go.
--   Voice        webapp/src/utils/voiceSession.js (class VoiceSession): Voice/Session its media, its
--                connection and its close, Voice/Peers its table of peers.
--   Room         the panel of voice rooms, class AudioCallPanel of
--                webapp/src/components/modals/audio_group_call/audio_group_call.jsx, with
--                webapp/src/utils/voiceRoomController.js (Room/Controller). The record Panel is the
--                state and the fields of the class, with the voice session of Voice. Room/Joining has
--                handleJoinRoom, leaveRoomInternal, handleLeaveRoom, handleDeleteRoom,
--                disconnectLocalRoom, the presence of other tabs and componentWillUnmount;
--                Room/Connecting has reconcileVoiceConnection, handleRequestPerms, connectToSwarm,
--                handleHubData, the toggles and the directory; Room/Steps has the events.
--   Invite       the invitations of the same class, with webapp/src/utils/voiceInviteController.js
--                (Invite/Controller): the record Invites holds the panel and the invitation that
--                arrived. Invite/Search is the picker of users (handleToggleInvitePicker,
--                closeInvitePicker, handleInviteSearchChange, handleSendVoiceInvite),
--                Invite/Eligible its list (eligibleInviteUsers), Invite/Incoming what is done with an
--                invitation (submitVoiceInviteDecision, applyVoiceInviteDecision, the expiry), and
--                Invite/Steps has the events, those of Room among them. Invite/Post is
--                webapp/src/components/post_types/voice_invite_post.jsx.
--   Sidebar      the list of rooms of the same class: Sidebar.antt what the mouse opens and hides in it
--                (handleRoomRowEnter, handleToggleRoomMenu, handleToggleCreate, handleCreateChannel,
--                handleInvitePickerOutsideClick), Sidebar/View what render, renderActiveRoom,
--                renderVoiceControls and renderInvitePicker show of the state.
--   Direct       webapp/src/utils/dmPeer.js (getDirectMessagePeerUserId), dmPickerPeers.js
--                (getDirectMessagePeersForPicker, getHintedPeerId) and dmChannel.js
--                (getDirectChannelIdForPeer), on the channels and users of the host's store.
--   Ice          webapp/src/utils/iceServers.js (buildIceServers).
--   Requests     the headers of requests, with the token of the session's cookie:
--                webapp/src/utils/mattermostApi.js and pluginSignalHub.js
--                (getCsrfTokenFromCookie, mattermostApiHeaders, pluginCookieAuthHeaders);
--                Requests/Server is webapp/src/utils/voiceRoomsApi.js and voiceInvitesApi.js.
--   Startup      webapp/src/index.js: whenStoreReady, toChannelId, startCallFromChannel,
--                and initialize with safely in Startup/Registration.
--   Window       the window of a 1:1 call, webapp/src/components/modals/start_video_call/index.js and
--                start_video_call.jsx: `screens` is the conditions of render, over the Slice of Call.
--   CallPicker   the picker of a peer for a call,
--                webapp/src/components/video_call_picker/video_call_picker.jsx and index.js, on the
--                rows of Direct and the thunks of Call.
--   CallPost     the posts of a call: webapp/src/utils/callInvitePosts.js and
--                webapp/src/components/post_types/webrtc_invite_post.jsx.
--   Popover      webapp/src/components/popover_video_call_button.jsx.
--   Watch        webapp/src/utils/peerConnectionWatch.js.
--   Events       the sets of listeners of webapp/src/utils/voiceInviteEvents.js and
--                voicePresenceEvents.js.
--   Sounds       webapp/src/utils/voiceRoomSounds.js and callBrowserNotify.js.
--   Debug        webapp/src/utils/debug.js: `debug` is the default export, and an object is a number
--                in a heap, so that objects can hold one another.
--   Ring         the ringer of webapp/src/utils/callRing.js (createRinger).
--   Users        the display names of webapp/src/utils/dmPickerPeers.js and of actions/index.js.
--   Media        tracks and streams of the browser, as far as the code reads them.
--   Base         shared names; values of JavaScript (Base/Js), dictionaries, `trim`.
--
-- How state and effects are modelled: a thunk is a function from World to World, where World has the
-- host's users, the slice, the session, the two listeners and a log of what the code does to the
-- browser, the server and the peers. An asynchronous function is cut at its awaits: each answer is an
-- event of its own, with what it carries as the event's data, so events come in any order and a
-- theorem about `run` holds for every interleaving. An object that the code makes is named by the
-- next free number. An error is a value: an Option or a data type of what may come back. The
-- recursions are structural; the redaction of the debug log alone has fuel, one more than the number of
-- objects, which Debug/Terminates shows to be enough.
--
-- Room/Places is what the panel promises as a machine of four places, with the relation of what each
-- event may do; `place` takes a panel to its place.
--
-- A callback that the panel gives to `close` of the session is a Task with a number; the session keeps
-- the numbers. A `setState` is done at once, with its callback, and so is the update that React makes.
--
-- Parameters: JSON.parse is `parse`, a function that may give no value. What the browser answers to a
-- request for media, and what the server answers, is given with the event. Ids are texts that are
-- given with the events too. The list of users to invite takes `toLowerCase` and the order of
-- `localeCompare` as parameters, and the deletion of a room `encodeURIComponent`.
--
-- Not modelled: styles, and rendering apart from the call window and the list of voice rooms; the
-- shape of a tone; how a request is sent; the Go server apart from that
-- envelope; which lines are logged; what a handler leaves undone when a method of a peer throws,
-- although the ladder of media goes on from it.
pub mod Base
pub mod Media
pub mod Users
pub mod Signal
pub mod Direct
pub mod Call
pub mod Voice
pub mod Room
pub mod Invite
pub mod Requests
pub mod Window
pub mod Debug
pub mod CallPicker
pub mod Sidebar
pub mod CallPost
pub mod Popover
pub mod Watch
pub mod Events
pub mod Sounds
pub mod Startup
pub mod Ring
pub mod Ice
