-- ===== src/Database.antt =====
-- backend/RELATIONAL-DATABASE: the parser of commands. The other sources of that directory are empty
-- or hold only a comment.
pub mod Parser
