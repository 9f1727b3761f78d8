-- ===== src/Lib.antt =====
-- A model of the backend of ELK Business Hub, and what it keeps.
--
-- The program is a NestJS server in TypeScript. A controller calls a service, a service calls
-- repositories over Prisma, and the services of ELK's own cleaning and repair business call Razorpay.
-- A customer books a home service and pays for it through Razorpay; a webhook or the app's own report
-- confirms the payment; the company whose area the address is in assigns a professional, starts and
-- completes the job; either side may cancel, and a queued job asks Razorpay for the refund. Companies
-- keep the catalogue of services, whose prices a super admin approves, and their own areas,
-- professionals and promo codes. Beside this, users sell to each other on a marketplace: they list,
-- view, save, order and ask. All of them sign in by codes sent to their phones.
--
-- Files, and the code that each is about (paths from the repository's root):
--   Common.antt            helpers: Booleans, integers, the failures of common/errors, and `Action`,
--                          an asynchronous method that passes the stores on and may throw
--   Table.antt             what Prisma and MySQL promise of a table: an interface, of which
--                          Table/Listed.antt is an implementation by lists
--   HomeServices/          src/modules/home-services: rules (prices, promo codes, fees, areas), the
--                          repository, and booking, paying and cancelling
--   Razorpay/              src/modules/razorpay: the repository, the service (checkout, verify,
--                          handleWebhook, refund) and the job of the refund queue
--   Admin/                 src/modules/admin: admin-bookings.service.ts, admin-scope.ts, and
--                          professional-approvals.service.ts with its repository
--   Auth/                  src/modules/auth: sessions by refresh tokens (auth.service.ts), one-time
--                          codes (otp.service.ts), and Redis as an interface with an implementation
--   Marketplace/           src/modules/marketplace: ad-orders.service.ts, ad-orders.repository.ts,
--                          ad-attributes.ts, marketplace.service.ts and marketplace.repository.ts
--   Catalogue/             src/modules/admin: the services of admin-catalog.service.ts and
--                          admin.repository.ts, admin-approvals.service.ts, service-terms.ts and
--                          service-change.repository.ts; Standing is whether, and at what price, a
--                          service is approved
--   Company/               src/modules/admin: the areas, professionals and promo codes
--                          of admin-catalog.service.ts and admin.repository.ts
--   Config/                src/config/env.validation.ts
--   Addresses.antt         src/modules/locations: the saved addresses of a user
--   Lifecycle.antt         the life of a service booking: HomeServices, Razorpay and Admin as steps
--   Witnesses.antt         the properties at concrete inputs
-- A method of the source keeps its name in snake_case (`handleWebhook` is `handle_webhook`); a table's
-- row is a record; `throw` is a failure as a value, and what was written before it stays written,
-- except in a transaction. A transaction is all or nothing, its deletions included, which is what the
-- code relies on; the Prisma extension of src/database/prisma.extension.ts runs them on its own
-- client. By the same extension a deleted address is only stamped as deleted.
--
-- Units: amounts are paise, instants are milliseconds (seconds for Redis), calendar days are the
-- number YYYYMMDD, which orders as the text YYYY-MM-DD does. Amounts are exact where the source has
-- decimals and floating point. Texts that the code looks into are lists of UTF-16 code units, whose
-- letters change case as in ASCII; identifiers and codes that are only compared are numbers. Nothing
-- needs fuel: every loop of the modelled code runs over a list.
--
-- Parameters: the tables (of bookings, payments, services, requests, listings and so on), each an
-- instance of the interface of Table.antt; the tables that are only read (Catalogue, the modules of an
-- admin, the counts of open bookings); the clock and what is generated (Moment); Razorpay and its
-- signatures (Gateway); the professionals and WhatsApp (Outside); hashes, signatures and identifiers of
-- sessions (Tokens, Fresh); Redis; the SMS gateway (OtpConfig); the listings that may be ordered
-- (Market); the maps service (Maps); and the distance between two points. No law of Razorpay or of the
-- maps is assumed.
--
-- Interleavings: a step of Lifecycle is one request, webhook or job from its first read to its last
-- write, and so is a step of Catalogue, Company and the listings. What happens when two of them
-- interleave is stated apart, with the value that was read as an argument (`assign_read`, `settle`,
-- `update_read`).
--
-- Not modelled: messages and notifications, controllers and their validation, storage, sockets, push,
-- logging, the parsing of the configuration, the pages, lists and counts that only read, and the
-- columns that other tables lose when a row is deleted (a booking's service and professional). The
-- queue of refund jobs is a list that takes every job; BullMQ, which skips a job with the id of one it
-- holds, and may fail, is left out.
pub mod Catalogue
pub mod Common
pub mod Table
pub mod HomeServices
pub mod Razorpay
pub mod Admin
pub mod Auth
pub mod Marketplace
pub mod Company
pub mod Config
pub mod Addresses
pub mod Lifecycle
pub mod Witnesses
