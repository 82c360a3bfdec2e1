-- ===== src/Connector.antt =====
-- packages/connectors/src: what the connectors throw (errors.ts), the page that they return and
-- the requests that they make (types.ts, schemas.ts).
pub mod Errors
pub mod Page
pub mod Client
