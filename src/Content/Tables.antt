-- ===== src/Content/Tables.antt =====
-- What the calls of the repository of the clients do to the tables, for any property that the server asks of the
-- tables that it takes: the rules of App/Tables, applied.
pub mod Clients
