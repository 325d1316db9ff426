-- ===== src/Forward.antt =====
-- application/forward.rules/rules.go: the routes between chats. `Cycle` is the search for a loop of
-- forwards, `Refs` the form of a chat reference, `Rules` the validation of the rules and the routes.
pub mod Cycle
pub mod Refs
pub mod Rules
pub mod Examples
