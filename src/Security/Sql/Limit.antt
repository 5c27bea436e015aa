-- ===== src/Security/Sql/Limit.antt =====
-- app/core/security.py: the limit in the text that `guard_sql_query` returns.
