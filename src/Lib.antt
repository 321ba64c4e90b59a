-- ===== src/Lib.antt =====
-- AdhikarAI: the eligibility of citizens for welfare schemes, and the services around it.
--
-- The backend (backend/app) is a FastAPI application over PostgreSQL. Admins write schemes with
-- eligibility rules; citizens describe themselves, in a form or in a conversation, and are told which
-- schemes they match, which they miss by one criterion and which documents they still need; operators of
-- NGOs work for their beneficiaries. The parts modelled here, each in the file named after it:
--
-- Value: JSON values and Python's comparisons on them. Schema, Db.Rows and Db.Tables: the rules
-- (schemas/scheme.py), profiles (schemas/profile.py) and tables (db/models).
-- Eligibility.Criteria: CriterionEvaluator of services/eligibility/criteria.py. Eligibility.Engine:
-- engine.py and experta_engine.py. Eligibility.Matcher: evaluate_profile_against_rules of matcher.py.
-- Eligibility.Validation: validate_rule of validation.py. What a rule asks is said once more in
-- Criteria.Spec and Validation.Valid, read off the rule, and the code is compared with that.
-- Documents: services/documents, document_matcher.py and guidance.py; Documents.Check is service.py.
-- Documents.Reports describes a reply by the documents of the rule.
-- Schemes: services/schemes.py. Its handlers are transactions on the tables; Schemes.Update changes,
-- publishes and archives, Schemes.Listing and Schemes.Catalogue read,
-- Schemes.Expiry is services/jobs/expiry_checker.py, and Schemes.Requests is the
-- relation of the states that requests reach one after another. The listing is what the matcher is given.
-- Accounts: services/phase4.py; Accounts.Otp and Accounts.Verify are send_otp and verify_otp,
-- Accounts.Login the account that a login makes or updates, Accounts.Sync the actions recorded offline,
-- Accounts.Saved the saved schemes and applications, Accounts.Checklist the documents that are kept
-- for a scheme, and Accounts.Citizen the other services: push subscriptions, action plans, DigiLocker and
-- the deletion of the account.
-- Agent: agent/completeness.py, and Agent.Question agent/question_selection.py. Agent.Extraction is
-- agent/extraction.py: the facts of a free text, in Structured those of a form, in Payload those of a
-- language model with the checks on them, and Agent.Confidence
-- how a confidence is read; Agent.Facts merges facts into a profile and asks about the
-- uncertain ones; Agent.LifeEvents is agent/life_events.py.
-- Sessions: the conversation, services/sessions/session_service.py. Sessions.State reads it from the
-- database or the store (redis_store.py), Sessions.Begin begins or resumes it; a turn is
-- Sessions.Pipeline, whose nodes, in the order of agent/graph.py, are in Sessions.Turn, Sessions.Members,
-- Sessions.Profile and Sessions.Reply. Sessions.Patch is services/profiles.py and
-- Sessions.Households services/households.py. Sessions.Requests is the relation of the states that
-- conversations, patches and changes of a household reach. A turn uses the extraction, the listing of
-- the schemes, the matcher, the completeness and the choice of the question.
-- Core.Settings: validate_environment of core/config.py. Core.Security: core/security.py, the tokens of
-- sessions and whom a token lets in; Encoding and Tokens are about the texts, Access about citizens and
-- Members about the dashboard. Dashboard.Rbac: dashboard/rbac.py. Dashboard.Login: the login of
-- api/routes/dashboard.py, which gives a member the cookie that Core.Security reads.
-- Dashboard.Beneficiaries: dashboard/beneficiaries.py and audit.py over the tables of
-- db/models/phase5.py; Queries has the list, Detail one beneficiary, the board and the guide, Writes and
-- Casework the operations that write, which Requests puts together. They use the access of Dashboard.Rbac
-- and the guard of Accounts.Sync.
-- RateLimit: rate_limit/service.py.
-- Prelude holds what they share: lists, dictionaries, texts, sorting, results that may raise an ApiError
-- (core/errors.py), Prelude.Regex, the matching of Python's re for the patterns
-- used, and Prelude.Exec, a session with an uncommitted view and a durable state, so that a raised error
-- leaves exactly what was committed before it; Prelude.Exec.After has the rules for proofs about it.
--
-- Numbers are natural numbers: an amount of land and a JSON number are counted in hundredths, as is a
-- confidence, a weight of a question in tenths, and the weights of the completeness are scaled to be
-- exact where the source adds floats. Ids of the database are numbers that are only compared, dates are
-- days and times are seconds. Texts are compared by code points; letter case and white space are those
-- of ASCII. Every function is structural; the only fuel is that of the decimal digits of a number, which
-- has one more step than the number itself.
--
-- Parameters stand for code outside the repository: the Redis client with the behaviour of INCR and
-- of EXPIRE, which deletes a key for a timeout of 0, base64,
-- json, hmac and the texts of UUIDs (what is assumed of them is IsBase64 and IsReadable), the
-- collation of the database, the keyed hash, random codes and fresh ids, pydantic's validation of a
-- profile, the results of the semantic search and whether it rebuilds
-- its index, which commits what a turn has done so far, the answers of the language model, and for the dashboard
-- the database's LIKE and the times that it keeps of its rows. A decimal that a citizen
-- writes is rounded to hundredths, and a confidence is cut to them. Of the store, a turn models that its
-- last write may fail, after the commit. Constraints of the database and concurrent transactions are not
-- modelled, nor are the other routes, migrations, the language, speech and
-- embedding models and their clients; the bulk checks of CSV files and the drafts of schemes are not
-- modelled.
pub mod Prelude
pub mod Value
pub mod Schema
pub mod Db
pub mod Eligibility
pub mod Dashboard
pub mod RateLimit
pub mod Core
pub mod Documents
pub mod Schemes
pub mod Sessions
pub mod Accounts
pub mod Agent
